-- ===== src/Storage/Heal/Sorted.antt =====
-- `healGroup` on a whole sibling group: what it returns, and that a healed group stays as it is.
use mathlib.Core.List.{Perm}
use mathlib.Core.List.Perm
use mathlib.Core.Path.{subst}
use auk.Base.{◌≡◌, refl, true, false, List, [], ◌∷◌, some, arith, Bool-cases, inl, inr}
use auk.Base.Text.{Bytes, bytes_lt, bytes_eq_iff}
use auk.Base.Text.Order.{bytes_lt_irrefl, bytes_lt_asymm}
use auk.Storage.OrderKey.Digits.{digit_val_upper}
use auk.Storage.OrderKey.Bounds.{IsDigits, IsDigits-key}
use auk.Storage.Heal.{
  Row, rank, row_lt, insert_row, sort_rows, valid_order_key, keeps, heal_from, heal_group,
}
use auk.Storage.Heal.Keys.{Healed, ids, heal_from_heals, valid_order_key_iff}

insert_row-perm : (r : Row) (rows : List Row) → Perm (ids (insert_row r rows)) (r.id ∷ ids rows)
unfolding insert_row
insert_row-perm r [] = Perm.refl (r.id ∷ [])
insert_row-perm r (s ∷ rows) = elim (Bool-cases (row_lt s r)) [
  | inl later ↦
      rw later
        (Perm.trans (Perm.cons s.id (insert_row-perm r rows)) (Perm.swap r.id s.id (ids rows)))
  | inr here ↦ rw here (Perm.refl (r.id ∷ s.id ∷ ids rows))
]

sort_rows-perm : (rows : List Row) → Perm (ids (sort_rows rows)) (ids rows)
unfolding sort_rows
sort_rows-perm [] = Perm.refl []
sort_rows-perm (r ∷ rows) =
    Perm.trans (insert_row-perm r (sort_rows rows)) (Perm.cons r.id (sort_rows-perm rows))

-- The heal of any sibling group returns, whatever keys it holds. It keeps every row, by id, in the
-- order in which the rows are shown; and its keys are valid and strictly increase.
pub heal_group_heals :
    (rows : List Row)
    → (healed : List Row) × (heal_group rows ≡ some healed)
      × Healed [] healed
      × (ids healed ≡ ids (sort_rows rows))
      × Perm (ids healed) (ids rows)
unfolding heal_group
heal_group_heals rows =
    let (healed, e, w, same) = heal_from_heals [] (sort_rows rows) tt in
    (healed, e, w, same, rw same (sort_rows-perm rows))

rank-IsDigits : (k : Bytes) → IsDigits k → rank k ≡ k
unfolding rank
rank-IsDigits [] d = refl
rank-IsDigits (c ∷ k) d = ground (arith, digit_val_upper c d.0, rank-IsDigits k d.1)

valid-rank : (k : Bytes) → valid_order_key k ≡ true → rank k ≡ k
valid-rank k v = rank-IsDigits k (IsDigits-key k ((valid_order_key_iff k).0 v).0)

-- Rows whose valid keys increase are in the order of the sort already.
row_not_lt :
    (r s : Row)
    → valid_order_key r.key ≡ true
    → valid_order_key s.key ≡ true
    → bytes_lt r.key s.key ≡ true
    → row_lt s r ≡ false
unfolding row_lt
row_not_lt r s v w h =
    rw (valid-rank r.key v, valid-rank s.key w)
      (ground (arith, bytes_eq_iff s.key r.key, bytes_lt_asymm r.key s.key, bytes_lt_irrefl r.key))

sort_rows-Healed : (prev : Bytes) (rows : List Row) → Healed prev rows → sort_rows rows ≡ rows
unfolding sort_rows insert_row
sort_rows-Healed prev [] h = refl
sort_rows-Healed prev (r ∷ []) h = refl
sort_rows-Healed prev (r ∷ s ∷ rows) (v, a, w) =
    rw (sort_rows-Healed r.key (s ∷ rows) w) (rw (row_not_lt r s v w.0 w.1))

keeps_of_lt :
    (prev k : Bytes) → valid_order_key k ≡ true → bytes_lt prev k ≡ true → keeps prev k ≡ true
keeps_of_lt [] k v a = rw v
keeps_of_lt (c ∷ prev) k v a = rw (v, a)

heal_from-Healed :
    (prev : Bytes) (rows : List Row) → Healed prev rows → heal_from prev rows ≡ some rows
unfolding heal_from
heal_from-Healed prev [] h = refl
heal_from-Healed prev (r ∷ rows) (v, a, w) =
    rw (keeps_of_lt prev r.key v a, heal_from-Healed r.key rows w)

-- A group whose keys are valid and strictly increase is left as it is: no key is minted.
pub heal_group_fixed : (rows : List Row) → Healed [] rows → heal_group rows ≡ some rows
unfolding heal_group
heal_group_fixed rows h = rw (sort_rows-Healed [] rows h) (heal_from-Healed [] rows h)

-- A second heal changes no key: what `healGroup` leaves, it leaves as it is.
pub heal_group_idempotent :
    (rows healed : List Row) → heal_group rows ≡ some healed → heal_group healed ≡ some healed
heal_group_idempotent rows healed e =
    let (out, e', w, _, _) = heal_group_heals rows in
    let same : out ≡ healed = cc in heal_group_fixed healed (subst (Healed []) same w)
