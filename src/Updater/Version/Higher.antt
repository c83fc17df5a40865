-- ===== src/Updater/Version/Higher.antt =====
-- The precedence of semantic versions, said as a relation, and `Compare` as its decision.
use auk.Base.{◌<◌, ◌≡◌, ◌⊎◌, ◌↔◌, inl, inr, refl, true, List, [], ◌∷◌, Option, none, some, arith}
use auk.Base.Int.{ℤ, pos, negsuc, atoi}
use auk.Base.Text.{Bytes, bytes_lt}
use auk.Base.Text.Order.{bytes_lt_total, bytes_lt_irrefl, bytes_lt_asymm}
use auk.Updater.Version.{
  Version, Cmp, less, same, more, cmp_int, cmp_text, then_cmp, cmp_num, cmp_id, by_pre,
  compare_version,
}
use auk.Updater.Version.Precedence.{lex, compare_pre-lex}

abbrev pub IntAbove : ℤ → ℤ → Type 0
IntAbove (pos m) (pos n) = n < m
IntAbove (pos m) (negsuc n) = Unit
IntAbove (negsuc m) (pos n) = ⊥
IntAbove (negsuc m) (negsuc n) = m < n

-- Of two identifiers that read as numbers the greater number is above; any other text is above a number;
-- of two other texts the one that is later in the order of bytes is above.
abbrev pub NumAbove : Option ℤ → Option ℤ → Bytes → Bytes → Type 0
NumAbove (some m) (some n) x y = IntAbove m n
NumAbove (some m) none x y = ⊥
NumAbove none (some n) x y = Unit
NumAbove none none x y = bytes_lt y x ≡ true

abbrev pub NumSame : Option ℤ → Option ℤ → Bytes → Bytes → Type 0
NumSame (some m) (some n) x y = m ≡ n
NumSame (some m) none x y = ⊥
NumSame none (some n) x y = ⊥
NumSame none none x y = x ≡ y

-- The first identifiers that differ decide; where none do, the longer list is above.
abbrev pub IdsAbove : List Bytes → List Bytes → Type 0
IdsAbove [] b = ⊥
IdsAbove (x ∷ a) [] = Unit
IdsAbove (x ∷ a) (y ∷ b) =
    NumAbove (atoi x) (atoi y) x y ⊎ (NumSame (atoi x) (atoi y) x y × IdsAbove a b)

-- A release is above its pre-releases.
abbrev pub PreAbove : List Bytes → List Bytes → Type 0
PreAbove [] [] = ⊥
PreAbove [] (y ∷ b) = Unit
PreAbove (x ∷ a) [] = ⊥
PreAbove (x ∷ a) (y ∷ b) = IdsAbove (x ∷ a) (y ∷ b)

-- Major, minor and patch in turn, then the pre-release.
abbrev pub Higher : Version → Version → Type 0
Higher v w =
    IntAbove v.major w.major
    ⊎ ((v.major ≡ w.major)
        × (IntAbove v.minor w.minor
            ⊎ ((v.minor ≡ w.minor)
                × (IntAbove v.patch w.patch ⊎ ((v.patch ≡ w.patch) × PreAbove v.pre w.pre)))))

-- The comparison tells what is above and what is the same.
abbrev Decides : Cmp → Type 0 → Type 0 → Type 0
Decides c A B = ((c ≡ more) ↔ A) × ((c ≡ same) ↔ B)

then_more :
    (c r : Cmp) (A B R : Type 0)
    → Decides c A B
    → (r ≡ more) ↔ R
    → (then_cmp c r ≡ more) ↔ (A ⊎ (B × R))
then_more less r A B R d q =
    ((λ h. cc h), (λ h. elim h [ inl a ↦ d.0.1 a | inr (b, _) ↦ cc (d.1.1 b) ]))
then_more same r A B R d q =
    ((λ h. inr (d.1.0 refl, q.0 h)), (λ h. elim h [ inl a ↦ cc (d.0.1 a) | inr (_, k) ↦ q.1 k ]))
then_more more r A B R d q = ((λ h. inl (d.0.0 refl)), (λ h. refl))

cmp_int_same : (a b : ℤ) → cmp_int a b ≡ same → a ≡ b
unfolding cmp_int
cmp_int_same (pos a) (pos b) h = ground arith
cmp_int_same _ _ h = ground arith

cmp_int_self : (a : ℤ) → cmp_int a a ≡ same
unfolding cmp_int
cmp_int_self (pos a) = ground arith
cmp_int_self (negsuc a) = ground arith

cmp_int_above : (a b : ℤ) → (cmp_int a b ≡ more) ↔ IntAbove a b
unfolding cmp_int
cmp_int_above (pos a) (pos b) = ground arith
cmp_int_above (pos a) (negsuc b) = ground arith
cmp_int_above (negsuc a) (pos b) = ground arith
cmp_int_above (negsuc a) (negsuc b) = ground arith

cmp_int-Decides : (a b : ℤ) → Decides (cmp_int a b) (IntAbove a b) (a ≡ b)
cmp_int-Decides a b = (cmp_int_above a b, (cmp_int_same a b, λ e. rw e (cmp_int_self b)))

cmp_text-Decides : (x y : Bytes) → Decides (cmp_text x y) (bytes_lt y x ≡ true) (x ≡ y)
unfolding cmp_text
cmp_text-Decides x y = (
  (ground arith, ground (arith, bytes_lt_asymm x y, bytes_lt_asymm y x)),
  ((λ h. bytes_lt_total x y (ground arith) (ground arith)), λ e. rw (e, bytes_lt_irrefl y) refl),
)

cmp_num-Decides :
    (m n : Option ℤ) (x y : Bytes) → Decides (cmp_num m n x y) (NumAbove m n x y) (NumSame m n x y)
cmp_num-Decides (some m) (some n) x y = cmp_int-Decides m n
cmp_num-Decides (some m) none x y = (((λ h. cc h), (λ h. absurd h)), ((λ h. cc h), (λ h. absurd h)))
cmp_num-Decides none (some n) x y = (((λ h. tt), (λ h. refl)), ((λ h. cc h), (λ h. absurd h)))
cmp_num-Decides none none x y = cmp_text-Decides x y

cmp_id-Decides :
    (x y : Bytes)
    → Decides (cmp_id x y) (NumAbove (atoi x) (atoi y) x y) (NumSame (atoi x) (atoi y) x y)
unfolding cmp_id
cmp_id-Decides x y = cmp_num-Decides (atoi x) (atoi y) x y

lex_above : (a b : List Bytes) → (lex a b ≡ more) ↔ IdsAbove a b
lex_above [] [] = ((λ h. cc h), (λ h. absurd h))
lex_above [] (y ∷ b) = ((λ h. cc h), (λ h. absurd h))
lex_above (x ∷ a) [] = ((λ h. tt), (λ h. refl))
lex_above (x ∷ a) (y ∷ b) =
    then_more (cmp_id x y) (lex a b) (NumAbove (atoi x) (atoi y) x y)
      (NumSame (atoi x) (atoi y) x y) (IdsAbove a b) (cmp_id-Decides x y) (lex_above a b)

by_pre_above : (a b : List Bytes) → (by_pre a b ≡ more) ↔ PreAbove a b
by_pre_above [] [] = ((λ h. cc h), (λ h. absurd h))
by_pre_above [] (y ∷ b) = ((λ h. tt), (λ h. refl))
by_pre_above (x ∷ a) [] = ((λ h. cc h), (λ h. absurd h))
by_pre_above (x ∷ a) (y ∷ b) = rw (compare_pre-lex (x ∷ a) (y ∷ b)) (lex_above (x ∷ a) (y ∷ b))

-- Compare answers +1 exactly on a version of higher precedence.
pub compare_version_iff : (v w : Version) → (compare_version v w ≡ more) ↔ Higher v w
unfolding compare_version
compare_version_iff v w =
    let pre = by_pre v.pre w.pre in
    let patch = then_cmp (cmp_int v.patch w.patch) pre in
    let minor = then_cmp (cmp_int v.minor w.minor) patch in
    then_more (cmp_int v.major w.major) minor _ _ _ (cmp_int-Decides v.major w.major) (
      then_more (cmp_int v.minor w.minor) patch _ _ _ (cmp_int-Decides v.minor w.minor) (
        then_more (cmp_int v.patch w.patch) pre _ _ _ (cmp_int-Decides v.patch w.patch)
          (by_pre_above v.pre w.pre)))
