-- ===== src/Storage/Tree/Cascade.antt =====
-- The removal of a folder takes what is in it along.
use auk.Base.{
  ℕ, zero, suc, ◌≡◌, refl, inl, inr, Bool, true, false, List, [], ◌∷◌, Option, none, some,
  Bool-cases, All,
}
use auk.Base.Text.{Bytes, bytes_eq, bytes_eq_self}
use auk.Storage.Tree.{
  Item, Tree, TreeError, is_in, ids_in, has, remove_request, go_on, each, remove_folder_file,
  remove_requests_in, remove_folder,
}
use auk.Storage.Tree.Steps.{
  NoneIn, Fewer, Cascades, drop_item-Fewer, Cascades-refl, Step, go_on-Step, has-drop_item,
  has-drop_item-other, Gone, has-Fewer,
}

remove_request-Step :
    (removes : Bytes → Bool) (id : Bytes) (s : Tree)
    → Step (λ t. has id t.requests ≡ false) s (remove_request removes id s)
unfolding remove_request
remove_request-Step removes id s = elim (Bool-cases (has id s.requests)) [
  | inr absent ↦ rw absent (Cascades-refl s, absent)
  | inl there ↦ elim (Bool-cases (removes id)) [
    | inr fails ↦ rw (there, fails) (Cascades-refl s)
    | inl ok ↦
        rw (there, ok)
          (
            ((λ P h. h), drop_item-Fewer id s.requests, λ j here gone. cc (here, gone)),
            has-drop_item id s.requests,
          )
  ]
]

module _ (sel : Tree → List Item)
    (fewer : (s t : Tree) → Cascades s t → Fewer (sel s) (sel t)) where
  each-Step :
      (remove : Bytes → Tree → Option TreeError × Tree)
      → ((id : Bytes) (s : Tree) → Step (λ t. has id (sel t) ≡ false) s (remove id s))
      → (ids : List Bytes) (s : Tree) → Step (λ t. Gone ids (sel t)) s (each remove ids s)
  each-Step remove h [] s = (Cascades-refl s, tt)
  each-Step remove h (id ∷ ids) s =
      go_on-Step (λ t. has id (sel t) ≡ false) (λ t. Gone (id ∷ ids) (sel t)) s (remove id s)
        (each remove ids) (h id s)
        (λ t c gone. both t gone (each remove ids t) (each-Step remove h ids t))
    where
      both :
          (t : Tree)
          → has id (sel t) ≡ false
          → (o : Option TreeError × Tree) → Step (λ u. Gone ids (sel u)) t o
          → Step (λ u. Gone (id ∷ ids) (sel u)) t o
      both t gone (none, u) (c, g) = (c, (has-Fewer id (sel t) (sel u) (fewer t u c) gone, g))
      both t gone (some e, u) c = c

everyone_there : (items : List Item) → All (λ (x : Item). has x.id items ≡ true) items
unfolding has
everyone_there items = go items (λ j h. h)
  where
    go :
        (xs : List Item)
        → ((j : Bytes) → has j xs ≡ true → has j items ≡ true)
        → All (λ (x : Item). has x.id items ≡ true) xs
    go [] up = tt
    go (x ∷ xs) up = (up x.id (rw (bytes_eq_self x.id) refl), go xs (λ j h. up j (behind j h)))
      where
        behind : (j : Bytes) → has j xs ≡ true → has j (x ∷ xs) ≡ true
        behind j h = elim (Bool-cases (bytes_eq x.id j)) [
          | inl same ↦ rw same refl
          | inr other ↦ rw other h
        ]

-- Where the ids of all items in a folder are gone, no item is in it.
Gone-NoneIn :
    (id : Bytes) (items items' : List Item)
    → Fewer items items'
    → Gone (ids_in id items) items'
    → NoneIn id items'
Gone-NoneIn id items items' fewer gone =
    none_in items' (fewer Absent (absent items gone)) (everyone_there items')
  where
    Absent : Item → Type 0
    Absent x = is_in id x ≡ true → has x.id items' ≡ false

    absent : (xs : List Item) → Gone (ids_in id xs) items' → All Absent xs
    absent [] g = tt
    absent (x ∷ xs) g = elim (Bool-cases (is_in id x)) [
      | inl inside ↦ let (a, later) = rw inside at g in ((λ _. a), absent xs later)
      | inr outside ↦ ((λ inside. cc (inside, outside)), absent xs (rw outside at g))
    ]

    none_in :
        (xs : List Item)
        → All Absent xs
        → All (λ (x : Item). has x.id items' ≡ true) xs
        → NoneIn id xs
    none_in [] a h = tt
    none_in (x ∷ xs) (a, later) (h, hs) = (
      elim (Bool-cases (is_in id x)) [ inl inside ↦ cc (a inside, h) | inr outside ↦ outside ],
      none_in xs later hs,
    )

remove_folder_file-Step :
    (removes : Bytes → Bool) (id : Bytes) (s : Tree)
    → NoneIn id s.folders
    → NoneIn id s.requests
    → Step (λ t. has id t.folders ≡ false) s (remove_folder_file removes id s)
remove_folder_file-Step removes id s nf nr = elim (Bool-cases (removes id)) [
  | inr fails ↦ rw fails (Cascades-refl s)
  | inl ok ↦ rw ok (
    (
      drop_item-Fewer id s.folders,
      (λ P h. h),
      λ j there gone.
          let same = has-drop_item-other id j s.folders gone there in
          (rw same (drop_item-Fewer id s.folders (λ x. is_in id x ≡ false) nf), rw same nr),
    ),
    has-drop_item id s.folders,
  )
]

pub remove_folder-Step :
    (fuel : ℕ) (removes : Bytes → Bool) (id : Bytes) (s : Tree)
    → Step (λ t. has id t.folders ≡ false) s (remove_folder fuel removes id s)
unfolding remove_folder
remove_folder-Step zero removes id s = Cascades-refl s
remove_folder-Step (suc fuel) removes id s = elim (Bool-cases (has id s.folders)) [
  | inr absent ↦ rw absent (Cascades-refl s, absent)
  | inl there ↦ rw there (
      go_on-Step (λ t. Gone (ids_in id s.folders) t.folders) (λ t. has id t.folders ≡ false) s
        (each (remove_folder fuel removes) (ids_in id s.folders) s) (then_requests)
        (each-Step (λ t. t.folders) (λ a b c. c.0) (remove_folder fuel removes)
          (remove_folder-Step fuel removes) (ids_in id s.folders) s)
        (λ t c gone.
          go_on-Step (λ u. Gone (ids_in id t.requests) u.requests) (λ u. has id u.folders ≡ false) t
            (remove_requests_in removes id t) (remove_folder_file removes id)
            (each-Step (λ u. u.requests) (λ a b d. d.1) (remove_request removes)
              (remove_request-Step removes) (ids_in id t.requests) t)
            (λ u d gone'.
              remove_folder_file-Step removes id u
                (d.0 (λ x. is_in id x ≡ false) (Gone-NoneIn id s.folders t.folders c.0 gone))
                (Gone-NoneIn id t.requests u.requests d.1 gone'))))
]
  where
    then_requests : Tree → Option TreeError × Tree
    then_requests t = go_on (remove_requests_in removes id t) (remove_folder_file removes id)

pub Step-Cascades :
    (Q : Tree → Type 0) (s : Tree) (o : Option TreeError × Tree) → Step Q s o → Cascades s o.1
Step-Cascades Q s (none, t) h = h.0
Step-Cascades Q s (some e, t) h = h

-- Whatever files cannot be removed, and whether the removal ends: where a folder is gone afterwards
-- that was there, no folder and no request that is left is in it.
pub remove_folder-NoneIn :
    (fuel : ℕ) (removes : Bytes → Bool) (id : Bytes) (s : Tree) (j : Bytes)
    → has j s.folders ≡ true
    → has j (remove_folder fuel removes id s).1.folders ≡ false
    → NoneIn j (remove_folder fuel removes id s).1.folders
      × NoneIn j (remove_folder fuel removes id s).1.requests
remove_folder-NoneIn fuel removes id s j there gone =
    (Step-Cascades (λ t. has id t.folders ≡ false) s (remove_folder fuel removes id s)
        (remove_folder-Step fuel removes id s)).2
      j there gone

-- A removal without an error leaves no folder of that id.
pub remove_folder-gone :
    (fuel : ℕ) (removes : Bytes → Bool) (id : Bytes) (s : Tree)
    → (remove_folder fuel removes id s).0 ≡ none
    → has id (remove_folder fuel removes id s).1.folders ≡ false
remove_folder-gone fuel removes id s ok =
    go (remove_folder fuel removes id s) (remove_folder-Step fuel removes id s) ok
  where
    go :
        (o : Option TreeError × Tree)
        → Step (λ t. has id t.folders ≡ false) s o
        → o.0 ≡ none
        → has id o.1.folders ≡ false
    go (none, t) h e = h.1
    go (some x, t) h e = cc e
