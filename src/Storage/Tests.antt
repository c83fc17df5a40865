-- ===== src/Storage/Tests.antt =====
-- Order keys and their healing at concrete rows.
use mathlib.Core.List.{Perm}
use auk.Base.{◌≡◌, ◌≢◌, refl, true, List, [], ◌∷◌, none, some, arith}
use auk.Base.Text.{Bytes, codes, bytes_lt}
use auk.Storage.OrderKey.{order_key_between}
use auk.Storage.OrderKey.Bounds.{IsKey, Between}
use auk.Storage.OrderKey.Insert.{order_key_between_ordered, order_key_between_total}
use auk.Storage.Heal.{Row, sort_rows, heal_group}
use auk.Storage.Heal.Keys.{Healed, ids}
use auk.Storage.Heal.Sorted.{heal_group_heals, heal_group_idempotent}

abbrev row : Bytes → Bytes → Row
row k i = record { key = k; id = i }

first_key : order_key_between [] [] ≡ some (codes "I")
unfolding order_key_between
first_key = refl

tight_keys : order_key_between (codes "A") (codes "A1") ≡ some (codes "A0I")
unfolding order_key_between
tight_keys = refl

legacy_seed : order_key_between (codes "a0") [] ≡ some (codes "I")
unfolding order_key_between
legacy_seed = refl

foreign_panics : order_key_between (codes "/") (codes "0") ≡ none
unfolding order_key_between
foreign_panics = refl

abbrev legacy : List Row
legacy =
    row (codes "I") (codes "x") ∷ row (codes "a0") (codes "y") ∷ row (codes "I") (codes "w") ∷ []

abbrev healed_legacy : List Row
healed_legacy =
    row (codes "9") (codes "y") ∷ row (codes "I") (codes "w") ∷ row (codes "R") (codes "x") ∷ []

heal_legacy : heal_group legacy ≡ some healed_legacy
unfolding heal_group
heal_legacy = refl

heal_group_idempotent_example : heal_group healed_legacy ≡ some healed_legacy
heal_group_idempotent_example = heal_group_idempotent legacy healed_legacy heal_legacy

heal_group_heals_example :
    (healed : List Row) × (heal_group legacy ≡ some healed)
    × Healed [] healed
    × (ids healed ≡ ids (sort_rows legacy))
    × Perm (ids healed) (ids legacy)
heal_group_heals_example = heal_group_heals legacy

order_key_between_ordered_example :
    (k : Bytes) × (order_key_between (codes "A") (codes "A1") ≡ some k)
    × Between (codes "A") (codes "A1") k
unfolding order_key_between
order_key_between_ordered_example =
    order_key_between_ordered (codes "A") (codes "A1") (omega arith) (omega arith) refl

order_key_between_total_example :
    (k : Bytes) × (order_key_between (codes "B00") (codes "A1") ≡ some k)
    × (bytes_lt (codes "B00") k ≡ true)
    × IsKey k
    × (k ≢ [])
unfolding order_key_between
order_key_between_total_example =
    order_key_between_total (codes "B00") (codes "A1") (omega arith) (omega arith)
