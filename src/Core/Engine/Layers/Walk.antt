-- ===== src/Core/Engine/Layers/Walk.antt =====
-- The walk up the folders: it ends where parents are below some measure, and not on a cycle.
use auk.Base.{
  ℕ, zero, suc, ◌<◌, ◌≡◌, ◌∙◌, ap, refl, inl, inr, List, [], ◌∷◌, Option, none, some, arith,
  Bool-cases, Option-cases,
}
use mathlib.Core.List.{Memᴰ}
use auk.Base.Text.{Bytes, bytes_eq, bytes_eq_iff}
use auk.Core.Model.{Folder}
use auk.Core.Engine.Layers.{find_folder, onto_chain, folder_chain}

pub find_folder-found :
    (id : Bytes) (folders : List Folder) (f : Folder)
    → find_folder id folders ≡ some f
    → Memᴰ f folders × (f.id ≡ id)
unfolding find_folder
find_folder-found id [] f e = cc e
find_folder-found id (g ∷ folders) f e = elim (Bool-cases (bytes_eq g.id id)) [
  | inl here ↦
      let same : f ≡ g = cc (rw here at e) in
      (Memᴰ.head same, ap (λ (x : Folder). x.id) same ∙ (bytes_eq_iff g.id id).0 here)
  | inr other ↦
      let (m, same) = find_folder-found id folders f (rw other at e) in (Memᴰ.tail m, same)
]

-- Each folder's parent has a lower measure than the folder.
abbrev pub Descends : (Bytes → ℕ) → List Folder → Type 0
Descends rank folders =
    (f : Folder) → Memᴰ f folders → (p : Bytes) → f.parent ≡ some p → rank p < rank f.id

-- Where each folder's parent is below it by some measure, the walk from a folder ends within one step
-- more than its measure and one.
pub folder_chain_ends :
    (rank : Bytes → ℕ) (folders : List Folder)
    → Descends rank folders
    → (n : ℕ) (id : Bytes) → rank id < n
    → (chain : List Folder) × (folder_chain (suc n) folders (some id) ≡ some chain)
unfolding folder_chain
folder_chain_ends rank folders down zero id lt = absurd (omega arith)
folder_chain_ends rank folders down (suc n) id lt = elim (Option-cases (find_folder id folders)) [
  | inl dangling ↦ ([], rw dangling refl)
  | inr (f, found) ↦
      let (m, same) = find_folder-found id folders f found in
      let above =
        parent_ends f.parent (folder_chain_ends rank folders down n)
          (λ p e. omega (arith, down f m p e, ap rank same)) in
      (f ∷ above.0, rw found (ap (onto_chain f) above.1))
]
  where
    parent_ends :
        (o : Option Bytes)
        → ((p : Bytes)
            → rank p < n
            → (chain : List Folder) × (folder_chain (suc n) folders (some p) ≡ some chain))
        → ((p : Bytes) → o ≡ some p → rank p < n)
        → (chain : List Folder) × (folder_chain (suc n) folders o ≡ some chain)
    parent_ends none rec h = ([], refl)
    parent_ends (some p) rec h = rec p (h p refl)

-- On a set of ids that each have a folder with its parent in the set, the walk never ends.
pub folder_chain_cycle :
    (S : Bytes → Type 0) (folders : List Folder)
    → ((id : Bytes)
        → S id
        → (f : Folder) × (p : Bytes) × (find_folder id folders ≡ some f)
          × (f.parent ≡ some p)
          × S p)
    → (fuel : ℕ) (id : Bytes) → S id
    → folder_chain fuel folders (some id) ≡ none
unfolding folder_chain
folder_chain_cycle S folders closed zero id h = refl
folder_chain_cycle S folders closed (suc fuel) id h =
    let (f, p, found, up, h') = closed id h in
    rw (found, up, folder_chain_cycle S folders closed fuel p h') refl
