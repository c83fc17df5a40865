-- ===== src/Storage/Tree/Ends.antt =====
-- The removal of a folder ends where folders are below their parents by some measure.
use auk.Base.{
  ℕ, zero, suc, ◌<◌, ◌≡◌, ap, refl, inl, inr, Bool, true, false, List, [], ◌∷◌, Option, none, some,
  arith, Bool-cases, All,
}
use auk.Base.Text.{Bytes, bytes_eq_iff}
use auk.Storage.Tree.{
  Item, Tree, TreeError, out_of_fuel, not_removed, not_written, panic, is_in, same_parent, ids_in,
  has, remove_request, go_on, each, remove_folder_file, remove_requests_in, remove_folder,
}
use auk.Storage.Tree.Cascade.{remove_folder-Step, Step-Cascades}

-- Each folder is below its parent.
abbrev pub Lower : (Bytes → ℕ) → List Item → Type 0
Lower height folders =
    All (λ (x : Item). (p : Bytes) → x.parent ≡ some p → height x.id < height p) folders

-- The fuel has not run out.
abbrev pub Ended : Option TreeError × Tree → Type 0
Ended (none, t) = Unit
Ended (some (not_written _), t) = Unit
Ended (some (not_removed _), t) = Unit
Ended (some panic, t) = Unit
Ended (some out_of_fuel, t) = ⊥

go_on-Ended :
    (o : Option TreeError × Tree) (next : Tree → Option TreeError × Tree)
    → Ended o
    → (o.0 ≡ none → Ended (next o.1))
    → Ended (go_on o next)
go_on-Ended (none, t) next h k = k refl
go_on-Ended (some (not_written _), t) next h k = tt
go_on-Ended (some (not_removed _), t) next h k = tt
go_on-Ended (some panic, t) next h k = tt
go_on-Ended (some out_of_fuel, t) next h k = elim h [ ]

requests-Ended :
    (removes : Bytes → Bool) (ids : List Bytes) (s : Tree)
    → Ended (each (remove_request removes) ids s)
unfolding remove_request
requests-Ended removes [] s = tt
requests-Ended removes (id ∷ ids) s =
    go_on-Ended (remove_request removes id s) (each (remove_request removes) ids) one
      (λ _. requests-Ended removes ids (remove_request removes id s).1)
  where
    one : Ended (remove_request removes id s)
    one = elim (Bool-cases (has id s.requests)) [
      | inr absent ↦ rw absent tt
      | inl there ↦ elim (Bool-cases (removes id)) [
        | inl ok ↦ rw (there, ok) tt
        | inr fails ↦ rw (there, fails) tt
      ]
    ]

in_parent : (id : Bytes) (p : Option Bytes) → same_parent p (some id) ≡ true → p ≡ some id
in_parent id none h = cc h
in_parent id (some p) h = ap (λ (t : Bytes). some t) ((bytes_eq_iff p id).0 h)

children_below :
    (height : Bytes → ℕ) (id : Bytes) (folders : List Item)
    → Lower height folders
    → All (λ (j : Bytes). height j < height id) (ids_in id folders)
children_below height id [] h = tt
children_below height id (x ∷ folders) (h, hs) = elim (Bool-cases (is_in id x)) [
  | inl inside ↦
      rw inside (h id (in_parent id x.parent inside), children_below height id folders hs)
  | inr outside ↦ rw outside (children_below height id folders hs)
]

module _ (height : Bytes → ℕ) (removes : Bytes → Bool) where
  each-Ended :
      (fuel : ℕ)
      → ((id : Bytes) (s : Tree)
          → Lower height s.folders
          → height id < fuel
          → Ended (remove_folder fuel removes id s))
      → (ids : List Bytes) (s : Tree) → Lower height s.folders
      → All (λ (j : Bytes). height j < fuel) ids
      → Ended (each (remove_folder fuel removes) ids s)
  each-Ended fuel one [] s low h = tt
  each-Ended fuel one (id ∷ ids) s low (h, hs) =
      let c =
        Step-Cascades (λ t. has id t.folders ≡ false) s (remove_folder fuel removes id s)
          (remove_folder-Step fuel removes id s) in
      go_on-Ended (remove_folder fuel removes id s) (each (remove_folder fuel removes) ids)
        (one id s low h)
        (λ _.
          each-Ended fuel one ids (remove_folder fuel removes id s).1
            (c.0 (λ x. (p : Bytes) → x.parent ≡ some p → height x.id < height p) low) hs)

  below :
      (n m : ℕ) (ids : List Bytes)
      → n < suc m
      → All (λ (j : Bytes). height j < n) ids
      → All (λ (j : Bytes). height j < m) ids
  below n m [] lt h = tt
  below n m (j ∷ ids) lt (h, hs) = (omega (arith, h, lt), below n m ids lt hs)

  -- Where each folder is below its parent by some measure, the removal of a folder ends, with or
  -- without an error, with one more fuel than its measure.
  pub remove_folder-Ended :
      (fuel : ℕ) (id : Bytes) (s : Tree)
      → Lower height s.folders
      → height id < fuel
      → Ended (remove_folder fuel removes id s)
  unfolding remove_folder
  remove_folder-Ended zero id s low lt = absurd (omega (arith, lt))
  remove_folder-Ended (suc fuel) id s low lt = elim (Bool-cases (has id s.folders)) [
    | inr absent ↦ rw absent tt
    | inl there ↦ rw there (
        go_on-Ended (each (remove_folder fuel removes) (ids_in id s.folders) s) then_requests
          (each-Ended fuel (remove_folder-Ended fuel) (ids_in id s.folders) s low (
            below (height id) fuel (ids_in id s.folders) lt
              (children_below height id s.folders low)))
          (λ _. requests (each (remove_folder fuel removes) (ids_in id s.folders) s).1))
  ]
    where
      then_requests : Tree → Option TreeError × Tree
      then_requests t = go_on (remove_requests_in removes id t) (remove_folder_file removes id)

      file : (t : Tree) → Ended (remove_folder_file removes id t)
      file t = elim (Bool-cases (removes id)) [ inl ok ↦ rw ok tt | inr fails ↦ rw fails tt ]

      requests : (t : Tree) → Ended (then_requests t)
      requests t =
          go_on-Ended (remove_requests_in removes id t) (remove_folder_file removes id)
            (requests-Ended removes (ids_in id t.requests) t)
            (λ _. file (remove_requests_in removes id t).1)
