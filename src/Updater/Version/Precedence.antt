-- ===== src/Updater/Version/Precedence.antt =====
-- `Compare` on whole versions: pre-release lists compare as lists do, and versions field by field.
use auk.Base.{ℕ, suc, ◌≡◌, refl, sym, ap, ◌∙◌, List, [], ◌∷◌, arith, length}
use auk.Base.Int.{pos}
use auk.Base.Text.{Bytes}
use auk.Updater.Version.{
  Version, Cmp, less, same, more, cmp_int, then_cmp, cmp_id, pre_loop, compare_pre, by_pre,
  compare_version,
}
use auk.Updater.Version.Order.{
  turned, IsPreorder, cmp_int-IsPreorder, cmp_id-IsPreorder, then_cmp_turns, then_cmp_left,
  then_cmp_trans,
}

-- Identifier by identifier; a proper prefix is below the longer list.
abbrev pub lex : List Bytes → List Bytes → Cmp
lex [] [] = same
lex [] (_ ∷ _) = less
lex (_ ∷ _) [] = more
lex (x ∷ a) (y ∷ b) = then_cmp (cmp_id x y) (lex a b)

cmp_int-suc : (m n : ℕ) → cmp_int (pos (suc m)) (pos (suc n)) ≡ cmp_int (pos m) (pos n)
unfolding cmp_int
cmp_int-suc m n = ground arith

pre_loop-lex :
    (a b : List Bytes) → pre_loop (cmp_int (pos (length a)) (pos (length b))) a b ≡ lex a b
unfolding pre_loop
pre_loop-lex [] [] = unfold cmp_int in refl
pre_loop-lex [] (y ∷ b) = unfold cmp_int in ground arith
pre_loop-lex (x ∷ a) [] = unfold cmp_int in ground arith
pre_loop-lex (x ∷ a) (y ∷ b) =
    ap (then_cmp (cmp_id x y))
      (ap (λ t. pre_loop t a b) (cmp_int-suc (length a) (length b)) ∙ pre_loop-lex a b)

pub compare_pre-lex : (a b : List Bytes) → compare_pre a b ≡ lex a b
unfolding compare_pre
compare_pre-lex a b = pre_loop-lex a b

lex_turns : (a b : List Bytes) → lex b a ≡ turned (lex a b)
lex_turns [] [] = refl
lex_turns [] (y ∷ b) = refl
lex_turns (x ∷ a) [] = refl
lex_turns (x ∷ a) (y ∷ b) = ground (arith, cmp_id-IsPreorder.turns x y, lex_turns a b)

lex_left : (a b c : List Bytes) → lex a b ≡ same → lex a c ≡ lex b c
lex_left [] [] c h = refl
lex_left [] (y ∷ b) c h = cc
lex_left (x ∷ a) [] c h = cc
lex_left (x ∷ a) (y ∷ b) [] h = refl
lex_left (x ∷ a) (y ∷ b) (z ∷ c) h =
    ground (arith, cmp_id-IsPreorder.same_left x y z, lex_left a b c)

lex_trans : (a b c : List Bytes) → lex a b ≡ less → lex b c ≡ less → lex a c ≡ less
lex_trans [] b [] h k =
    elim b as (λ l. lex [] l ≡ less → lex l [] ≡ less → same ≡ less) [
      | [] ↦ λ p q. p
      | y ∷ l ↦ λ p q. cc
    ]
      h k
lex_trans [] b (z ∷ c) h k = refl
lex_trans (x ∷ a) [] c h k = cc
lex_trans (x ∷ a) (y ∷ b) [] h k = cc
lex_trans (x ∷ a) (y ∷ b) (z ∷ c) h k =
    let ids = cmp_id-IsPreorder in
    ground (
      arith,
      ids.less_trans x y z,
      lex_trans a b c,
      ids.same_left x y z,
      ids.same_left z y x,
      ids.turns x y,
      ids.turns y z,
      ids.turns x z,
    )

by_pre_turns : (a b : List Bytes) → by_pre b a ≡ turned (by_pre a b)
by_pre_turns [] [] = refl
by_pre_turns [] (y ∷ b) = refl
by_pre_turns (x ∷ a) [] = refl
by_pre_turns (x ∷ a) (y ∷ b) = rw (compare_pre-lex, compare_pre-lex) (lex_turns (x ∷ a) (y ∷ b))

by_pre_left : (a b c : List Bytes) → by_pre a b ≡ same → by_pre a c ≡ by_pre b c
by_pre_left [] [] c h = refl
by_pre_left [] (y ∷ b) c h = cc
by_pre_left (x ∷ a) [] c h = cc
by_pre_left (x ∷ a) (y ∷ b) [] h = refl
by_pre_left (x ∷ a) (y ∷ b) (z ∷ c) h =
    simp compare_pre-lex
      (lex_left (x ∷ a) (y ∷ b) (z ∷ c) (sym (compare_pre-lex (x ∷ a) (y ∷ b)) ∙ h))

by_pre_trans : (a b c : List Bytes) → by_pre a b ≡ less → by_pre b c ≡ less → by_pre a c ≡ less
by_pre_trans (x ∷ a) (y ∷ b) (z ∷ c) h k =
    compare_pre-lex (x ∷ a) (z ∷ c)
    ∙ lex_trans (x ∷ a) (y ∷ b) (z ∷ c) (sym (compare_pre-lex (x ∷ a) (y ∷ b)) ∙ h)
        (sym (compare_pre-lex (y ∷ b) (z ∷ c)) ∙ k)
by_pre_trans (x ∷ a) b [] h k = refl
by_pre_trans [] [] c h k = cc
by_pre_trans [] (y ∷ b) c h k = cc
by_pre_trans (x ∷ a) [] (z ∷ c) h k = cc

pulled {ℓ κ} :
    {A : Type ℓ} {B : Type κ} (π : B → A) {f : A → A → Cmp}
    → IsPreorder f
    → IsPreorder {A = B} (λ v w. f (π v) (π w))
pulled π p = record {
  turns = λ a b. p.turns (π a) (π b);
  less_trans = λ a b c. p.less_trans (π a) (π b) (π c);
  same_left = λ a b c. p.same_left (π a) (π b) (π c);
}

in_turn {ℓ} :
    {A : Type ℓ} {f g : A → A → Cmp}
    → IsPreorder f
    → IsPreorder g
    → IsPreorder {A = A} (λ v w. then_cmp (f v w) (g v w))
in_turn p q = record {
  turns = λ a b. then_cmp_turns p q a b a b;
  less_trans = λ a b c. then_cmp_trans p q a b c a b c;
  same_left = λ a b c. then_cmp_left p q a b c a b c;
}

by_pre-IsPreorder : IsPreorder by_pre
by_pre-IsPreorder = record {
  turns = by_pre_turns;
  less_trans = by_pre_trans;
  same_left = by_pre_left;
}

-- `Compare` is a total preorder: it turns round with its arguments, "older" is transitive, and
-- versions that compare the same compare alike with any third.
pub compare_version-IsPreorder : IsPreorder compare_version
unfolding compare_version
compare_version-IsPreorder = in_turn (pulled (λ (v : Version). v.major) cmp_int-IsPreorder) (
    in_turn (pulled (λ (v : Version). v.minor) cmp_int-IsPreorder) (
      in_turn (pulled (λ (v : Version). v.patch) cmp_int-IsPreorder)
        (pulled (λ (v : Version). v.pre) by_pre-IsPreorder)))
