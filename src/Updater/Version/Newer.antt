-- ===== src/Updater/Version/Newer.antt =====
-- `IsNewer`: when an update is offered.
use auk.Base.{
  zero, suc, refl, false, ◌&&◌, ◌≡◌, ◌↔◌, ap, ◌∙◌, true, false, some, arith, Option-cases,
  Bool-cases, inl, inr,
}
use auk.Base.Int.{ℤ, pos, negsuc}
use auk.Base.Text.{Bytes}
use auk.Updater.Version.{
  Version, Cmp, less, more, parse_version, compare_version, is_dev_version, is_zero, is_more,
  is_newer,
}
use auk.Updater.Version.Higher.{Higher, compare_version_iff}
use auk.Updater.Version.Order.{turned}
use auk.Updater.Version.Precedence.{compare_version-IsPreorder}

-- what the code tests
record Tested (latest current : Bytes) : Type 0 where
  pub new : Version
  pub old : Version
  pub new_parses : parse_version latest ≡ some new
  pub old_parses : parse_version current ≡ some old
  pub released : is_dev_version current ≡ false
  pub higher : compare_version new old ≡ more

is_more-eq : (c : Cmp) → is_more c ≡ true → c ≡ more
is_more-eq c h = ground arith

newer-Tested : (latest current : Bytes) → is_newer latest current ≡ true → Tested latest current
unfolding is_newer
newer-Tested latest current h = elim (Option-cases (parse_version latest)) [
  | inl bad ↦ absurd (ground arith)
  | inr (l, new_parses) ↦ elim (Option-cases (parse_version current)) [
    | inl bad ↦ absurd (ground arith)
    | inr (c, old_parses) ↦ record {
      new = l;
      old = c;
      new_parses = new_parses;
      old_parses = old_parses;
      released = ground arith;
      higher = is_more-eq (compare_version l c) (ground arith);
    }
  ]
]

Tested-newer : (latest current : Bytes) → Tested latest current → is_newer latest current ≡ true
unfolding is_newer
Tested-newer latest current o = rw (o.released, o.new_parses, o.old_parses, o.higher)

-- Both texts are versions, the running one is not 0.0.0, which dev builds have, and the latest has the
-- higher precedence.
pub record Offers (latest current : Bytes) : Type 0 where
  pub new : Version
  pub old : Version
  pub new_parses : parse_version latest ≡ some new
  pub old_parses : parse_version current ≡ some old
  pub released : ¬ ((old.major ≡ pos 0) × (old.minor ≡ pos 0) × (old.patch ≡ pos 0))
  pub higher : Higher new old

is_zero_iff : (n : ℤ) → (is_zero n ≡ true) ↔ (n ≡ pos 0)
is_zero_iff (pos zero) = ((λ h. refl), (λ h. refl))
is_zero_iff (pos (suc n)) = ((λ h. ground arith), (λ h. ground arith))
is_zero_iff (negsuc n) = ((λ h. cc h), (λ h. cc h))

no_zeros :
    (a b c : ℤ)
    → ((is_zero a && (is_zero b && is_zero c)) ≡ false)
      ↔ (¬ ((a ≡ pos 0) × (b ≡ pos 0) × (c ≡ pos 0)))
no_zeros a b c =
    let (a_to, a_from) = is_zero_iff a in
    let (b_to, b_from) = is_zero_iff b in
    let (c_to, c_from) = is_zero_iff c in
    (
      (λ h (x, y, z). cc (rw (a_from x, b_from y, c_from z) at h)),
      (λ h. elim (Bool-cases (is_zero a)) [
        | inr other ↦ rw other refl
        | inl x ↦ elim (Bool-cases (is_zero b)) [
          | inr other ↦ rw (x, other) refl
          | inl y ↦ elim (Bool-cases (is_zero c)) [
            | inr other ↦ rw (x, y, other) refl
            | inl z ↦ absurd (h (a_to x, b_to y, c_to z))
          ]
        ]
      ]),
    )

is_dev_version-zeros :
    (current : Bytes) (old : Version)
    → parse_version current ≡ some old
    → is_dev_version current ≡ (is_zero old.major && (is_zero old.minor && is_zero old.patch))
unfolding is_dev_version
is_dev_version-zeros current old e = rw (is_dev_version, e) refl

dev_iff :
    (current : Bytes) (old : Version)
    → parse_version current ≡ some old
    → (is_dev_version current ≡ false)
      ↔ (¬ ((old.major ≡ pos 0) × (old.minor ≡ pos 0) × (old.patch ≡ pos 0)))
dev_iff current old e =
    rw (is_dev_version-zeros current old e) (no_zeros old.major old.minor old.patch)

-- An update is offered exactly when both texts parse, the running version is not 0.0.0 of dev builds, and
-- the latest has the higher precedence: the first of major, minor and patch that differs is greater; or
-- none differ, and it is a release against a pre-release, or its pre-release is above by the first
-- identifier that differs, numbers by value and below other texts, or by being longer.
pub is_newer_iff :
    (latest current : Bytes) → (is_newer latest current ≡ true) ↔ Offers latest current
is_newer_iff latest current = (
  (λ h.
      let t = newer-Tested latest current h in
      record {
        new = t.new;
        old = t.old;
        new_parses = t.new_parses;
        old_parses = t.old_parses;
        released = (dev_iff current t.old t.old_parses).0 t.released;
        higher = (compare_version_iff t.new t.old).0 t.higher;
      }),
  (λ o. Tested-newer latest current (record {
    new = o.new;
    old = o.old;
    new_parses = o.new_parses;
    old_parses = o.old_parses;
    released = (dev_iff current o.old o.old_parses).1 o.released;
    higher = (compare_version_iff o.new o.old).1 o.higher;
  })),
)

module _ (a b c : Bytes) where
  turned_more : (v w : Version) → compare_version v w ≡ more → compare_version w v ≡ less
  turned_more v w h = compare_version-IsPreorder.turns v w ∙ ap turned h

  Tested-trans : Tested a b → Tested b c → Tested a c
  Tested-trans o p =
      let same_b : o.old ≡ p.new = cc (o.old_parses, p.new_parses) in
      let low : compare_version p.old o.old ≡ less = rw same_b (turned_more p.new p.old p.higher) in
      record {
        new = o.new;
        old = p.old;
        new_parses = o.new_parses;
        old_parses = p.old_parses;
        released = p.released;
        higher =
            compare_version-IsPreorder.turns p.old o.new
            ∙ ap turned (
                compare_version-IsPreorder.less_trans p.old o.old o.new low
                  (turned_more o.new o.old o.higher));
      }

  -- "Newer" is transitive, over any three version texts.
  pub is_newer_trans : is_newer a b ≡ true → is_newer b c ≡ true → is_newer a c ≡ true
  is_newer_trans h k = Tested-newer a c (Tested-trans (newer-Tested a b h) (newer-Tested b c k))

  Tested-not : Tested a b → Tested b a → ⊥
  Tested-not o p =
      let same_b : o.old ≡ p.new = cc (o.old_parses, p.new_parses) in
      let same_a : o.new ≡ p.old = cc (o.new_parses, p.old_parses) in
      let low : compare_version p.new p.old ≡ less =
        rw (← same_a, ← same_b) (turned_more o.new o.old o.higher) in
      cc (low, p.higher)

-- No two builds update each other: where one is newer than the other, the other is not newer.
pub is_newer_asymm : (a b : Bytes) → is_newer a b ≡ true → is_newer b a ≡ false
is_newer_asymm a b h = elim (Bool-cases (is_newer b a)) [
  | inl back ↦ absurd (Tested-not a b a (newer-Tested a b h) (newer-Tested b a back))
  | inr not_back ↦ not_back
]
