-- ===== src/Storage/Heal.antt =====
-- internal/storage/orderkey_heal.go: keys that cannot be used are minted again at load.
-- A row is its key and its id. `fix` writes the new key into the row; the write to disk is not
-- modelled, since its failure changes nothing in memory.
pub mod Keys
pub mod Sorted
use auk.Base.{
  ℕ, ◌+◌, ◌-◌, Bool, true, false, not, ◌&&◌, ◌||◌, List, [], ◌∷◌, Option, none, some, ltb, leb,
  ◌==◌, if◌then◌else◌, ◌>>=◌, all,
}
use auk.Base.Text.{Bytes, bytes_eq, bytes_lt}
use auk.Storage.OrderKey.{digit_val, is_empty, order_key_between}

pub record Row : Type 0 where
  pub key : Bytes
  pub id : Bytes

abbrev ends_in_zero : Bytes → Bool
ends_in_zero [] = false
ends_in_zero (c ∷ []) = c == b'0'
ends_in_zero (c ∷ d ∷ s) = ends_in_zero (d ∷ s)

unfoldable pub valid_order_key : Bytes → Bool
valid_order_key k = if is_empty k || ends_in_zero k then false else all (λ c. ltb 0 (digit_val c)) k

-- `strings.ToUpper` on ASCII; the bytes of other text, which a key edited by hand may have, stay
unfoldable pub rank : Bytes → Bytes
rank [] = []
rank (c ∷ s) = (if leb b'a' c && leb c b'z' then c - 32 else c) ∷ rank s

-- the comparison of `sort.SliceStable`
unfoldable pub row_lt : Row → Row → Bool
unfolding rank bytes_eq bytes_lt
row_lt r s =
    if not (bytes_eq (rank r.key) (rank s.key))
    then bytes_lt (rank r.key) (rank s.key)
    else bytes_lt r.id s.id

-- Stable insertion: before the first row that is strictly smaller than none of those behind it.
unfoldable pub insert_row : Row → List Row → List Row
insert_row r [] = r ∷ []
insert_row r (s ∷ rows) = if row_lt s r then s ∷ insert_row r rows else r ∷ s ∷ rows

unfoldable pub sort_rows : List Row → List Row
unfolding insert_row row_lt
sort_rows [] = []
sort_rows (r ∷ rows) = insert_row r (sort_rows rows)

-- the inner loop: the next key that is valid and above `prev`
unfoldable pub upper_bound : Bytes → List Row → Bytes
upper_bound prev [] = []
upper_bound prev (r ∷ rows) =
    if valid_order_key r.key && bytes_lt prev r.key then r.key else upper_bound prev rows

abbrev keeps : Bytes → Bytes → Bool
keeps prev k = valid_order_key k && (is_empty prev || bytes_lt prev k)

-- the outer loop, which returns the rows with their keys fixed
unfoldable pub heal_from : Bytes → List Row → Option (List Row)
unfolding upper_bound
heal_from prev [] = some []
heal_from prev (r ∷ rows) =
    let kept = heal_from r.key rows >>= (λ healed. some (r ∷ healed)) in
    let minted =
      order_key_between prev (upper_bound prev rows)
      >>= (λ k. heal_from k rows >>= (λ healed. some (record r { key = k } ∷ healed))) in
    if keeps prev r.key then kept else minted

unfoldable pub heal_group : List Row → Option (List Row)
unfolding sort_rows heal_from order_key_between valid_order_key digit_val bytes_lt
heal_group rows = heal_from [] (sort_rows rows)
