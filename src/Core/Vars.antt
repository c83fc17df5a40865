-- ===== src/Core/Vars.antt =====
-- Go's `map[string]string`, kept as a list in the order of its keys, in which `sortedKeys` reads it.
pub mod Laws
use auk.Base.{Bool, true, false, not, List, [], ◌∷◌, Option, none, some, if◌then◌else◌}
use auk.Base.Text.{Bytes, bytes_eq, bytes_lt}
use auk.Core.Model.{KeyValue}

abbrev pub Vars : Type 0
Vars = List (Bytes × Bytes)

-- `m[k]`
unfoldable pub get : Bytes → Vars → Option Bytes
get k [] = none
get k ((j, v) ∷ m) = if bytes_eq j k then some v else get k m

-- `m[k] = v`
unfoldable pub set : Bytes → Bytes → Vars → Vars
set k v [] = (k, v) ∷ []
set k v ((j, w) ∷ m) =
    if bytes_eq j k
    then (k, v) ∷ m
    else if bytes_lt k j
    then (k, v) ∷ (j, w) ∷ m
    else (j, w) ∷ set k v m

-- `delete(m, k)`
unfoldable pub delete : Bytes → Vars → Vars
delete k [] = []
delete k ((j, w) ∷ m) = let rest = delete k m in if bytes_eq j k then rest else (j, w) ∷ rest

abbrev pub member : Bytes → List Bytes → Bool
member k [] = false
member k (j ∷ js) = if bytes_eq j k then true else member k js

-- the second of two, where it has a value
abbrev pub over : Option Bytes → Option Bytes → Option Bytes
over low none = low
over low (some v) = some v

-- assignments in a row; a disabled one does nothing
unfoldable pub assign : Vars → List KeyValue → Vars
unfolding set
assign m [] = m
assign m (kv ∷ kvs) = assign (if kv.enabled then set kv.key kv.value m else m) kvs

-- the entries as enabled rows, in the order of their keys
abbrev pub rows : Vars → List KeyValue
rows [] = []
rows ((k, v) ∷ m) = record { key = k; value = v; enabled = true } ∷ rows m
