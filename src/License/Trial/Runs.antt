-- ===== src/License/Trial/Runs.antt =====
-- A trial over many launches: clocks that go anywhere, and one store lost at a time.
use auk.Base.{◌≤◌, ◌≡◌, ◌≢◌, refl, inl, inr, true, List, [], ◌∷◌, none, some, arith}
use auk.License.Time.{Instant}
use auk.License.Trial.{Trial, Stores, Writes, trial_start, reconcile, standing, resolve}
use auk.License.Trial.Clock.{
  Holds, trial_start-le, trial_start-ne_zero, last_seen_at-ge, standing_le, resolve_le,
}

-- What happens to the stores between two launches.
pub data Loss : Type 0 where
  kept file_lost keychain_lost : Loss

abbrev pub lose : Loss → Stores → Stores
lose kept s = s
lose file_lost s = record s { file = none }
lose keychain_lost s = record s { keychain = none }

-- A launch: a loss, then a resolve at some reading of the clock.
pub record Launch : Type 0 where
  pub loss : Loss
  pub now : Instant

abbrev pub both : Writes
both = record { file = true; keychain = true }

abbrev pub launched : Stores → Launch → Stores
launched s l = (resolve both l.now (lose l.loss s)).1

-- the stores after a list of launches
abbrev pub after : Stores → List Launch → Stores
after s [] = s
after s (l ∷ ls) = after (launched s l) ls

-- Both stores hold the same record, which has a start.
abbrev Agree : Stores → Trial → Type 0
Agree s r = (s.file ≡ some r) × (s.keychain ≡ some r) × (r.start ≢ 0)

lose-Holds : (l : Loss) (s : Stores) (r : Trial) → Agree s r → Holds (lose l s) r
lose-Holds kept s r h = inl h.0
lose-Holds file_lost s r h = inr h.1
lose-Holds keychain_lost s r h = inl h.0

launched-Agree :
    (s : Stores) (l : Launch) → l.now ≢ 0 → Agree (launched s l) (reconcile l.now (lose l.loss s))
unfolding resolve
launched-Agree s l h = (refl, refl, unfold reconcile in trial_start-ne_zero l.now (lose l.loss s) h)

-- Every clock reading is later than Go's zero time.
abbrev pub AllLive : List Launch → Type 0
AllLive [] = Unit
AllLive (l ∷ ls) = (l.now ≢ 0) × AllLive ls

reconcile_le :
    (now : Instant) (s : Stores) (r : Trial)
    → Holds s r
    → r.start ≢ 0
    → (standing (reconcile now s)).days_remaining ≤ (standing r).days_remaining
unfolding reconcile
reconcile_le now s r h k =
    standing_le r _ (trial_start-le now s r h k) (last_seen_at-ge now (trial_start now s) s r h)

runs_le :
    (ls : List Launch) (s : Stores) (r : Trial) (w : Writes) (l : Launch)
    → Agree s r
    → AllLive ls
    → (resolve w l.now (lose l.loss (after s ls))).0.days_remaining ≤ (standing r).days_remaining
runs_le [] s r w l h k = resolve_le w l.now (lose l.loss s) r (lose-Holds l.loss s r h) h.2
runs_le (m ∷ ls) s r w l h (live, k) =
    let less = reconcile_le m.now (lose m.loss s) r (lose-Holds m.loss s r h) h.2 in
    let rest =
      runs_le ls (launched s m) (reconcile m.now (lose m.loss s)) w l (launched-Agree s m live) k in
    omega arith

-- The trial is never extended. Whatever the stores hold at one launch, no later launch shows more
-- days than that one did: not after the clock was set forward or back, nor after the loss of one of the
-- two stores before each launch. Each launch in between writes both stores, and no clock reads the
-- zero instant.
pub days_never_grow :
    (s : Stores) (first : Launch) (between : List Launch) (w : Writes) (last : Launch)
    → first.now ≢ 0
    → AllLive between
    → (resolve w last.now (lose last.loss (after (launched s first) between))).0.days_remaining
      ≤ (resolve both first.now (lose first.loss s)).0.days_remaining
days_never_grow s first between w last h k =
    unfold resolve in
    runs_le between (launched s first) (reconcile first.now (lose first.loss s)) w last
      (launched-Agree s first h) k
