-- ===== src/Core/Engine/RunVars.antt =====
-- The variables of one run, `RunScopedVars`: the data row, and what scripts set and unset over it.
pub mod Refines
use auk.Base.{Bool, true, false, List, [], ◌∷◌, Option, none, some, if◌then◌else◌}
use auk.Base.Text.{Bytes, bytes_eq}
use auk.Core.Model.{KeyValue}
use auk.Core.Vars.{Vars, set, delete, member, assign, rows}

pub record RunVars : Type 0 where
  pub data_row : Vars
  pub writes : Vars
  pub unsets : List Bytes

-- `NewRunScopedVars`
abbrev pub new : RunVars
new = record { data_row = []; writes = []; unsets = [] }

-- `Reset`
unfoldable pub reset : List KeyValue → RunVars → RunVars
unfolding assign
reset data_rows rv = record { data_row = assign [] data_rows; writes = []; unsets = [] }

abbrev pub remove_name : Bytes → List Bytes → List Bytes
remove_name k [] = []
remove_name k (j ∷ js) = let rest = remove_name k js in if bytes_eq j k then rest else j ∷ rest

-- `setScript`
unfoldable pub set_script : Bytes → Bytes → RunVars → RunVars
unfolding set
set_script name value rv = record rv {
  writes = set name value rv.writes;
  unsets = remove_name name rv.unsets;
}

-- `unsetScript`
unfoldable pub unset_script : Bytes → RunVars → RunVars
unfolding delete
unset_script name rv = record rv {
  writes = delete name rv.writes;
  unsets = name ∷ remove_name name rv.unsets;
}

-- the data row without the columns that a script has unset
abbrev pub without : List Bytes → Vars → Vars
without names [] = []
without names ((k, v) ∷ m) =
    let rest = without names m in if member k names then rest else (k, v) ∷ rest

-- `overlay`
unfoldable pub overlay : RunVars → List KeyValue
unfolding assign
overlay rv = rows (assign (without rv.unsets rv.data_row) (rows rv.writes))
