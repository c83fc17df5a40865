-- ===== src/Core/Chaining/Chain.antt =====
-- Nested sends: a request that refers to another sends it, which may refer to a third.
use auk.Base.{
  suc, ◌+◌, ◌≤◌, ◌<◌, ◌≡◌, ◌↔◌, true, false, List, [], ◌∷◌, Option, none, some, arith, length,
  Bool-cases, inl, inr,
}
use native.Mathlib.Decide.{dec_le}
use auk.Base.Text.{Bytes}
use auk.Base.Result.{Result, ok, err, ◌>>=◌}
use auk.Core.Chaining.{
  ChainError, cycle, too_deep, ChainState, max_chain_depth, is_visited, entered, with_chain_request,
}

-- Requests that send one another, each from within the one before.
abbrev pub nested : Option ChainState → List Bytes → Result ChainError (Option ChainState)
nested st [] = ok st
nested st (id ∷ ids) = with_chain_request st id >>= λ next. nested (some next) ids

-- No request of the chain is among the visited ones, and none comes twice.
abbrev pub IsFresh : List Bytes → List Bytes → Type 0
IsFresh visited [] = Unit
IsFresh visited (id ∷ ids) = (is_visited id visited ≡ false) × IsFresh (id ∷ visited) ids

-- The result has no error.
abbrev pub Succeeds : {E A : Type 0} → Result E A → Type 0
Succeeds (ok _) = Unit
Succeeds (err _) = ⊥

with_chain_request_ok :
    (st : Option ChainState) (id : Bytes)
    → is_visited id (entered st).visited ≡ false
    → (entered st).depth ≤ max_chain_depth
    → with_chain_request st id
      ≡ ok (record { depth = (entered st).depth; visited = id ∷ (entered st).visited })
unfolding with_chain_request
with_chain_request_ok st id fresh shallow = ground arith

with_chain_request_cycle :
    (st : Option ChainState) (id : Bytes)
    → is_visited id (entered st).visited ≡ true
    → with_chain_request st id ≡ err cycle
unfolding with_chain_request
with_chain_request_cycle st id again = ground arith

with_chain_request_deep :
    (st : Option ChainState) (id : Bytes)
    → is_visited id (entered st).visited ≡ false
    → max_chain_depth < (entered st).depth
    → with_chain_request st id ≡ err too_deep
unfolding with_chain_request
with_chain_request_deep st id fresh deep = ground arith

nested-Succeeds :
    (ids : List Bytes) (st : Option ChainState)
    → IsFresh (entered st).visited ids
    → (entered st).depth + length ids ≤ suc max_chain_depth
    → Succeeds (nested st ids)
nested-Succeeds [] st f h = tt
nested-Succeeds (id ∷ ids) st (fresh, f) h = rw (with_chain_request_ok st id fresh (omega arith)) (
    nested-Succeeds ids
      (some (record { depth = (entered st).depth; visited = id ∷ (entered st).visited })) f
      (omega arith))

nested_only :
    (ids : List Bytes) (st : Option ChainState)
    → (entered st).depth ≤ suc max_chain_depth
    → Succeeds (nested st ids)
    → IsFresh (entered st).visited ids × ((entered st).depth + length ids ≤ suc max_chain_depth)
nested_only [] st d h = (tt, omega arith)
nested_only (id ∷ ids) st d h = elim (Bool-cases (is_visited id (entered st).visited)) [
  | inl again ↦ absurd (rw (with_chain_request_cycle st id again) at h)
  | inr fresh ↦ elim (dec_le (entered st).depth max_chain_depth) [
    | no deep ↦ absurd (rw (with_chain_request_deep st id fresh (omega arith)) at h)
    | yes shallow ↦
        let next : ChainState = record {
          depth = (entered st).depth;
          visited = id ∷ (entered st).visited;
        } in
        let (f, l) =
          nested_only ids (some next) (omega arith)
            (rw (with_chain_request_ok st id fresh shallow) at h) in
        ((fresh, f), omega arith)
  ]
]

-- A chain of nested sends gets through the guard exactly when no request comes twice in it and it
-- has at most nine requests.
pub nested_iff :
    (ids : List Bytes) → Succeeds (nested none ids) ↔ (IsFresh [] ids × (length ids ≤ 9))
nested_iff ids = (
  λ h. let (f, l) = nested_only ids none (omega arith) h in (f, omega arith),
  λ h. nested-Succeeds ids none h.0 (omega arith),
)
