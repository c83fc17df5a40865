-- ===== src/Updater/Version/Order.antt =====
-- Precedence is a total preorder: it turns round with its arguments, and it is transitive.
use auk.Base.{◌≡◌, refl, ap, true, Option, none, some, arith}
use auk.Base.Int.{ℤ, pos, negsuc, atoi}
use auk.Base.Text.{Bytes, bytes_lt}
use auk.Base.Text.Order.{bytes_lt_asymm, bytes_lt_trans, bytes_lt_total}
use auk.Updater.Version.{Cmp, less, same, more, cmp_int, cmp_text, then_cmp, cmp_num, cmp_id}

abbrev pub turned : Cmp → Cmp
turned less = more
turned same = same
turned more = less

-- What a comparison has to satisfy to sort by.
pub record IsPreorder {ℓ} {A : Type ℓ} (f : A → A → Cmp) : Type ℓ where
  pub turns : (a b : A) → f b a ≡ turned (f a b)
  pub less_trans : (a b c : A) → f a b ≡ less → f b c ≡ less → f a c ≡ less
  pub same_left : (a b c : A) → f a b ≡ same → f a c ≡ f b c

cmp_int_turns : (a b : ℤ) → cmp_int b a ≡ turned (cmp_int a b)
unfolding cmp_int
cmp_int_turns (pos a) (pos b) = ground arith
cmp_int_turns (pos a) (negsuc b) = ground arith
cmp_int_turns (negsuc a) (pos b) = ground arith
cmp_int_turns (negsuc a) (negsuc b) = ground arith

cmp_int_trans : (a b c : ℤ) → cmp_int a b ≡ less → cmp_int b c ≡ less → cmp_int a c ≡ less
unfolding cmp_int
cmp_int_trans (pos a) (pos b) (pos c) h k = ground arith
cmp_int_trans _ _ _ h k = ground arith

-- Integers that compare the same are the same.
cmp_int_same : (a b : ℤ) → cmp_int a b ≡ same → a ≡ b
unfolding cmp_int
cmp_int_same (pos a) (pos b) h = ground arith
cmp_int_same _ _ h = ground arith

pub cmp_text_turns : (a b : Bytes) → cmp_text b a ≡ turned (cmp_text a b)
unfolding cmp_text
cmp_text_turns a b = ground (arith, bytes_lt_asymm a b, bytes_lt_asymm b a)

cmp_text_lt : (a b : Bytes) → cmp_text a b ≡ less → bytes_lt a b ≡ true
unfolding cmp_text
cmp_text_lt a b h = ground arith

cmp_text_trans : (a b c : Bytes) → cmp_text a b ≡ less → cmp_text b c ≡ less → cmp_text a c ≡ less
unfolding cmp_text
cmp_text_trans a b c h k =
    let lt = bytes_lt_trans a b c (cmp_text_lt a b h) (cmp_text_lt b c k) in rw lt

cmp_text_same : (a b : Bytes) → cmp_text a b ≡ same → a ≡ b
unfolding cmp_text
cmp_text_same a b h = bytes_lt_total a b (ground arith) (ground arith)

-- Identifiers: numbers below texts.
cmp_num_turns : (m n : Option ℤ) (x y : Bytes) → cmp_num n m y x ≡ turned (cmp_num m n x y)
cmp_num_turns (some m) (some n) x y = cmp_int_turns m n
cmp_num_turns (some m) none x y = refl
cmp_num_turns none (some n) x y = refl
cmp_num_turns none none x y = cmp_text_turns x y

cmp_num_trans :
    (l m n : Option ℤ) (x y z : Bytes)
    → cmp_num l m x y ≡ less
    → cmp_num m n y z ≡ less
    → cmp_num l n x z ≡ less
cmp_num_trans (some l) (some m) (some n) x y z h k = cmp_int_trans l m n h k
cmp_num_trans none none none x y z h k = cmp_text_trans x y z h k
cmp_num_trans (some l) (some m) none x y z h k = refl
cmp_num_trans (some l) none none x y z h k = refl
cmp_num_trans (some l) none (some n) x y z h k = cc
cmp_num_trans none (some m) (some n) x y z h k = cc
cmp_num_trans none (some m) none x y z h k = cc
cmp_num_trans none none (some n) x y z h k = cc

cmp_num_left :
    (l m n : Option ℤ) (x y z : Bytes) → cmp_num l m x y ≡ same → cmp_num l n x z ≡ cmp_num m n y z
cmp_num_left (some l) (some m) n x y z h = let e = cmp_int_same l m h in num_only n e
  where
    num_only : (n : Option ℤ) → l ≡ m → cmp_num (some l) n x z ≡ cmp_num (some m) n y z
    num_only none e = refl
    num_only (some n) e = ap (λ t. cmp_int t n) e
cmp_num_left none none n x y z h = ap (λ t. cmp_num none n t z) (cmp_text_same x y h)
cmp_num_left (some l) none n x y z h = cc
cmp_num_left none (some m) n x y z h = cc

pub cmp_id-IsPreorder : IsPreorder cmp_id
unfolding cmp_id
cmp_id-IsPreorder = record {
  turns = λ x y. cmp_num_turns (atoi x) (atoi y) x y;
  less_trans = λ x y z. cmp_num_trans (atoi x) (atoi y) (atoi z) x y z;
  same_left = λ x y z. cmp_num_left (atoi x) (atoi y) (atoi z) x y z;
}

pub cmp_int-IsPreorder : IsPreorder cmp_int
cmp_int-IsPreorder = record {
  turns = cmp_int_turns;
  less_trans = cmp_int_trans;
  same_left = λ a b c h. ap (λ t. cmp_int t c) (cmp_int_same a b h);
}

-- Two comparisons in turn: the facts about three values, at each of the two.
module _ {ℓ κ} {A : Type ℓ} {B : Type κ} {f : A → A → Cmp} {g : B → B → Cmp} (p : IsPreorder f)
    (q : IsPreorder g) where
  pub then_cmp_turns :
      (a b : A) (x y : B) → then_cmp (f b a) (g y x) ≡ turned (then_cmp (f a b) (g x y))
  then_cmp_turns a b x y = ground (arith, p.turns a b, q.turns x y)

  pub then_cmp_left :
      (a b c : A) (x y z : B)
      → then_cmp (f a b) (g x y) ≡ same
      → then_cmp (f a c) (g x z) ≡ then_cmp (f b c) (g y z)
  then_cmp_left a b c x y z h = ground (arith, p.same_left a b c, q.same_left x y z)

  pub then_cmp_trans :
      (a b c : A) (x y z : B)
      → then_cmp (f a b) (g x y) ≡ less
      → then_cmp (f b c) (g y z) ≡ less
      → then_cmp (f a c) (g x z) ≡ less
  then_cmp_trans a b c x y z h k = ground (
    arith,
    p.less_trans a b c,
    q.less_trans x y z,
    p.same_left a b c,
    p.same_left c b a,
    p.turns a b,
    p.turns b c,
    p.turns a c,
  )
