-- ===== src/Storage/Tree/Steps.antt =====
-- Steps of a removal: nothing comes to be, and no item stays in a folder that goes.
use auk.Base.{
  ◌≡◌, ◌∙◌, sym, refl, inl, inr, true, false, List, [], ◌∷◌, Option, none, some, Bool-cases, All,
}
use auk.Base.Text.{Bytes, bytes_eq, bytes_eq_iff}
use auk.Storage.Tree.{Item, Tree, TreeError, drop_item, is_in, has, go_on}

-- no item is in this folder
abbrev pub NoneIn : Bytes → List Item → Type 0
NoneIn id items = All (λ (x : Item). is_in id x ≡ false) items

-- Nothing comes to be: what holds of all items still holds of all.
abbrev pub Fewer : List Item → List Item → Type 1
Fewer items items' = (P : Item → Type 0) → All P items → All P items'

-- From one state to a later one: nothing comes to be, and where a folder goes, all in it goes.
abbrev pub Cascades : Tree → Tree → Type 1
Cascades s t =
    Fewer s.folders t.folders
    × Fewer s.requests t.requests
    × ((id : Bytes)
        → has id s.folders ≡ true
        → has id t.folders ≡ false
        → NoneIn id t.folders × NoneIn id t.requests)

pub drop_item-Fewer : (id : Bytes) (items : List Item) → Fewer items (drop_item id items)
drop_item-Fewer id [] P h = h
drop_item-Fewer id (x ∷ items) P (h, hs) = elim (Bool-cases (bytes_eq x.id id)) [
  | inl same ↦ rw same (drop_item-Fewer id items P hs)
  | inr other ↦ rw other (h, drop_item-Fewer id items P hs)
]

pub Cascades-refl : (s : Tree) → Cascades s s
Cascades-refl s = ((λ P h. h), (λ P h. h), λ id there gone. cc (there, gone))

Cascades-trans : (s t u : Tree) → Cascades s t → Cascades t u → Cascades s u
Cascades-trans s t u (f, r, c) (f', r', c') = (
  (λ P h. f' P (f P h)),
  (λ P h. r' P (r P h)),
  λ id there gone. elim (Bool-cases (has id t.folders)) [
    | inl still ↦ c' id still gone
    | inr left ↦
        let (nf, nr) = c id there left in
        (f' (λ x. is_in id x ≡ false) nf, r' (λ x. is_in id x ≡ false) nr)
  ],
)

-- a step, and what holds where it has no error
abbrev pub Step : (Tree → Type 0) → Tree → Option TreeError × Tree → Type 1
Step Q s (none, t) = Cascades s t × Q t
Step Q s (some e, t) = Cascades s t

pub go_on-Step :
    (P Q : Tree → Type 0) (s : Tree) (o : Option TreeError × Tree)
    (next : Tree → Option TreeError × Tree)
    → Step P s o
    → ((t : Tree) → Cascades s t → P t → Step Q t (next t))
    → Step Q s (go_on o next)
go_on-Step P Q s (some e, t) next h rest = h
go_on-Step P Q s (none, t) next (h, p) rest = later (next t) (rest t h p)
  where
    later : (o : Option TreeError × Tree) → Step Q t o → Step Q s o
    later (none, u) (k, q) = (Cascades-trans s t u h k, q)
    later (some e, u) k = Cascades-trans s t u h k

pub has-drop_item : (id : Bytes) (items : List Item) → has id (drop_item id items) ≡ false
unfolding has
has-drop_item id [] = refl
has-drop_item id (x ∷ items) = elim (Bool-cases (bytes_eq x.id id)) [
  | inl same ↦ rw same (has-drop_item id items)
  | inr other ↦ rw (other, other) (has-drop_item id items)
]

-- another id is there as before
pub has-drop_item-other :
    (id j : Bytes) (items : List Item)
    → has j (drop_item id items) ≡ false
    → has j items ≡ true
    → j ≡ id
unfolding has
has-drop_item-other id j [] gone there = cc there
has-drop_item-other id j (x ∷ items) gone there = elim (Bool-cases (bytes_eq x.id id)) [
  | inl same ↦ elim (Bool-cases (bytes_eq x.id j)) [
    | inl here ↦ sym ((bytes_eq_iff x.id j).0 here) ∙ (bytes_eq_iff x.id id).0 same
    | inr apart ↦ has-drop_item-other id j items (rw same at gone) (rw apart at there)
  ]
  | inr other ↦ elim (Bool-cases (bytes_eq x.id j)) [
    | inl here ↦ cc (rw (other, here) at gone)
    | inr apart ↦ has-drop_item-other id j items (rw (other, apart) at gone) (rw apart at there)
  ]
]

-- the ids are no ids of the items
abbrev pub Gone : List Bytes → List Item → Type 0
Gone ids items = All (λ (id : Bytes). has id items ≡ false) ids

pub has-Fewer :
    (id : Bytes) (items items' : List Item)
    → Fewer items items'
    → has id items ≡ false
    → has id items' ≡ false
unfolding has
has-Fewer id items items' fewer gone =
    back items' (fewer (λ x. bytes_eq x.id id ≡ false) (forth items gone))
  where
    forth : (xs : List Item) → has id xs ≡ false → All (λ (x : Item). bytes_eq x.id id ≡ false) xs
    forth [] g = tt
    forth (x ∷ xs) g = elim (Bool-cases (bytes_eq x.id id)) [
      | inl same ↦ cc (rw same at g)
      | inr other ↦ (other, forth xs (rw other at g))
    ]

    back : (xs : List Item) → All (λ (x : Item). bytes_eq x.id id ≡ false) xs → has id xs ≡ false
    back [] g = refl
    back (x ∷ xs) (g, gs) = rw g (back xs gs)
