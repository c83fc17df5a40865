-- ===== src/Storage/Tree/Last.antt =====
-- An item without a key is put behind its siblings.
use auk.Base.{◌≡◌, ◌≢◌, ap, refl, inl, inr, true, false, List, [], ◌∷◌, none, Bool-cases, All}
use auk.Base.Text.{Bytes, bytes_lt, is_blank}
use auk.Base.Text.Order.{bytes_lt_trans, bytes_lt_total}
use auk.Storage.OrderKey.Bounds.{IsDigits, IsKey}
use auk.Storage.OrderKey.Insert.{order_key_between_total}
use auk.Storage.Tree.{Item, is_sibling, last_key, next_order_key, drop_item, put_item}

-- not after
abbrev pub UpTo : Bytes → Bytes → Type 0
UpTo k last = bytes_lt last k ≡ false

-- The siblings of an item have keys over the alphabet.
abbrev pub SiblingKeys : Item → List Item → Type 0
SiblingKeys x items = All (λ (y : Item). is_sibling x y ≡ true → IsDigits y.order_key) items

abbrev pub Behind : Item → Bytes → List Item → Type 0
Behind x k items = All (λ (y : Item). is_sibling x y ≡ true → bytes_lt y.order_key k ≡ true) items

UpTo-trans : (a b c : Bytes) → UpTo a b → bytes_lt b c ≡ true → bytes_lt a c ≡ true
UpTo-trans a b c h lt = elim (Bool-cases (bytes_lt a b)) [
  | inl less ↦ bytes_lt_trans a b c less lt
  | inr not_less ↦ rw (bytes_lt_total a b not_less h) lt
]

last_key-lem :
    (x : Item) (items : List Item) (last k : Bytes)
    → SiblingKeys x items
    → IsDigits last
    → IsDigits (last_key x items last)
      × (bytes_lt (last_key x items last) k ≡ true → (bytes_lt last k ≡ true) × Behind x k items)
unfolding last_key
last_key-lem x [] last k h d = (d, λ lt. (lt, tt))
last_key-lem x (y ∷ items) last k (h, hs) d = elim (Bool-cases (is_sibling x y)) [
  | inr other ↦
      let (dig, behind) = last_key-lem x items last k hs d in
      rw other (dig, λ lt. ((behind lt).0, ((λ same. cc same), (behind lt).1)))
  | inl sibling ↦ elim (Bool-cases (bytes_lt last y.order_key)) [
    | inl greater ↦
        let (dig, behind) = last_key-lem x items y.order_key k hs (h sibling) in
        rw (sibling, greater)
          (
            dig,
            λ lt. (
              bytes_lt_trans last y.order_key k greater (behind lt).0,
              ((λ _. (behind lt).0), (behind lt).1),
            ),
          )
    | inr up_to ↦
        let (dig, behind) = last_key-lem x items last k hs d in
        rw (sibling, up_to)
          (
            dig,
            λ lt. (
              (behind lt).0,
              ((λ _. UpTo-trans y.order_key last k up_to (behind lt).0), (behind lt).1),
            ),
          )
  ]
]

-- An item without an order key, put where its file can be written, is put without a panic, with a new
-- key that is not empty, sorts strictly behind those of its siblings and is usable. The siblings' keys are over the
-- alphabet.
pub put_item-last :
    (x : Item) (items : List Item)
    → x.order_key ≡ []
    → SiblingKeys x items
    → (k : Bytes) × (put_item true x items
        ≡ (none, record x { order_key = k } ∷ drop_item x.id items))
      × Behind x k items
      × IsKey k
      × (k ≢ [])
unfolding put_item next_order_key
put_item-last x items blank keys =
    let (k, e, lt, key, ne) =
      order_key_between_total (last_key x items []) [] (last_key-lem x items [] [] keys tt).0 tt in
    (k, rw (ap is_blank blank, e) refl, ((last_key-lem x items [] k keys tt).1 lt).1, key, ne)
