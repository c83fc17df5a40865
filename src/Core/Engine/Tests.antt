-- ===== src/Core/Engine/Tests.antt =====
-- The layers, the guards and a send at concrete inputs.
use auk.Base.{ℕ, ◌≡◌, ◌≢◌, refl, inr, Bool, true, List, [], ◌∷◌, none, some, if◌then◌else◌, arith}
use mathlib.Core.List.{Memᴰ}
use mathlib.Core.Path.{ap}
use auk.Base.Text.{Bytes, codes, bytes_eq, strip_prefix, contains_text}
use auk.Core.Model.{KeyValue, Folder, Environment}
use auk.Core.Vars.{get, set, assign, member, over}
use auk.Core.Vars.Laws.{last_value}
use auk.Core.Engine.RunVars.{new, overlay}
use auk.Core.Engine.RunVars.Refines.{row, written, unset, replay, steps, overlay_refines}
use auk.Core.Engine.Layers.{
  find_folder, folder_chain, folder_rows, merged_environment, variables_of, load_environment,
  find_environment,
}
use auk.Core.Engine.Layers.Precedence.{closest, merged_environment_lem}
use auk.Core.Engine.Layers.Walk.{Descends, folder_chain_ends, folder_chain_cycle}
use auk.Core.Engine.Secrets.{variable_map, secret_values, contains_secret_value}
use auk.Core.Engine.Secrets.Redacted.{variable_map_lem}
use auk.Core.Engine.Secrets.Detected.{HasSecretValue}
use auk.Core.Engine.Request.{ResolvedRequest, redact_by, merge_script_edits}
use auk.Core.Engine.Request.Edits.{Edits, edit, merge_script_edits_lem}
use auk.Core.Engine.Writes.{State, apply_variable_writes, upsert_variable}
use auk.Core.Engine.Writes.Kept.{Untouched}
use auk.Core.Engine.Writes.Guarded.{protected_kept, secret_value_kept}
use auk.Core.Engine.Writes.Seen.{written_value_seen}
use auk.Core.Engine.Writes.Landed.{Reads}

abbrev on : Bytes → Bytes → KeyValue
on k v = record { key = k; value = v; enabled = true }

abbrev staging : Environment
staging = record {
  id = codes "e";
  workspace_id = codes "w";
  secrets = codes "key" ∷ [];
  variables = on (codes "host") (codes "a") ∷ on (codes "key") (codes "s3") ∷ [];
}

abbrev root : Folder
root = record { id = codes "r"; parent = none; variables = on (codes "host") (codes "b") ∷ [] }

abbrev child : Folder
child = record { id = codes "c"; parent = some (codes "r"); variables = [] }

abbrev looped : Folder
looped = record { id = codes "l"; parent = some (codes "l"); variables = [] }

abbrev accepts_all : Environment → Bool
accepts_all env = true

abbrev idle : State
idle = record { environments = staging ∷ []; session = λ w. []; run = none }

abbrev running : State
running = record { environments = staging ∷ []; session = λ w. []; run = some new }

-- Of two rows of a name the first is updated, and the last is read.
duplicate_rows :
    last_value (codes "t") (
      upsert_variable
        (codes "t")
        (codes "new")
        (on (codes "t") (codes "a") ∷ on (codes "t") (codes "b") ∷ []))
    ≡ some (codes "b")
unfolding last_value upsert_variable bytes_eq
duplicate_rows = refl

overlay_refines_example :
    last_value (codes "t") (
      overlay (
        replay
          (row (on (codes "t") (codes "1") ∷ [])
            ∷ unset (codes "t")
            ∷ written (codes "t") (codes "2")
            ∷ [])
          new))
    ≡ steps
        (row (on (codes "t") (codes "1") ∷ [])
          ∷ unset (codes "t")
          ∷ written (codes "t") (codes "2")
          ∷ [])
        (λ _. none)
        (codes "t")
overlay_refines_example =
    overlay_refines
      (row (on (codes "t") (codes "1") ∷ [])
        ∷ unset (codes "t")
        ∷ written (codes "t") (codes "2")
        ∷ [])
      (codes "t")

merged_environment_lem_example :
    get (codes "host") (
      assign []
        (variables_of (merged_environment (some staging) (folder_rows (child ∷ root ∷ [])) [] [])))
    ≡ over
        (over
          (over
            (last_value (codes "host") (variables_of (some staging)))
            (closest (codes "host") (child ∷ root ∷ [])))
          (get (codes "host") []))
        (last_value (codes "host") [])
merged_environment_lem_example =
    merged_environment_lem (some staging) (child ∷ root ∷ []) [] [] (codes "host") tt

-- the root's id is below the others
abbrev depth_of : Bytes → ℕ
depth_of id = if bytes_eq id (codes "r") then 0 else 1

root-Descends : Descends depth_of (root ∷ [])
root-Descends f (Memᴰ.head same) p up = cc (ap (λ (x : Folder). x.parent) same, up)
root-Descends f (Memᴰ.tail m) p up = elim m [ ]

folder_chain_ends_example :
    (chain : List Folder) × (folder_chain 3 (root ∷ []) (some (codes "r")) ≡ some chain)
unfolding bytes_eq
folder_chain_ends_example =
    folder_chain_ends depth_of (root ∷ []) root-Descends 2 (codes "r") (omega arith)

looped_closed :
    (id : Bytes)
    → id ≡ codes "l"
    → (f : Folder) × (p : Bytes) × (find_folder id (looped ∷ []) ≡ some f)
      × (f.parent ≡ some p)
      × (p ≡ codes "l")
unfolding find_folder bytes_eq
looped_closed id same = (looped, codes "l", rw same refl, refl, refl)

folder_chain_cycle_example : folder_chain 9 (looped ∷ []) (some (codes "l")) ≡ none
folder_chain_cycle_example =
    folder_chain_cycle (λ id. id ≡ codes "l") (looped ∷ []) looped_closed 9 (codes "l") refl

variable_map_lem_example : get (codes "key") (variable_map (some staging)) ≡ (
    if member (codes "key") staging.secrets
    then none
    else get (codes "key") (assign [] staging.variables))
variable_map_lem_example = variable_map_lem staging (codes "key")

abbrev login : ResolvedRequest Bytes
login = record {
  url = codes "http://h/s3";
  method = codes "GET";
  headers = on (codes "X") (codes "s3") ∷ [];
  params = [];
  body = none;
  path_params = [];
  auth = none;
}

abbrev hide : Bytes → Bytes
hide s = codes "-"

abbrev signed : Edits
signed = record {
  url = none;
  text = none;
  values = some (codes "new") ∷ [];
  extra = on (codes "Y") (codes "z") ∷ [];
}

merge_script_edits_lem_example :
    merge_script_edits login (redact_by hide login) (edit signed (redact_by hide login))
    ≡ edit signed login
merge_script_edits_lem_example = merge_script_edits_lem hide signed login tt ((λ e. cc e), tt) tt

protected_kept_example : Untouched (codes "key") idle (
    apply_variable_writes accepts_all
      (codes "w")
      []
      (codes "e")
      none
      ((codes "key", codes "x") ∷ [])
      []
      idle)
unfolding bytes_eq
protected_kept_example =
    protected_kept accepts_all (codes "w") [] (codes "e") none ((codes "key", codes "x") ∷ []) []
      idle (codes "key") (staging, (Memᴰ.head refl, (inr refl, Memᴰ.head refl)))

s3-ne : codes "s3" ≢ []
s3-ne e = cc e

-- The value has the secret `s3` in it.
abbrev leaked : HasSecretValue staging (codes "is s3")
leaked = record {
  row = on (codes "key") (codes "s3");
  here = Memᴰ.tail (Memᴰ.head refl);
  enabled = refl;
  secret = Memᴰ.head refl;
  filled = s3-ne;
  before = codes "is ";
  behind = [];
  found = refl;
}

secret_value_kept_example : Untouched (codes "host") idle (
    apply_variable_writes accepts_all
      (codes "w")
      []
      (codes "e")
      (some staging)
      ((codes "host", codes "is s3") ∷ [])
      []
      idle)
unfolding secret_values contains_secret_value contains_text strip_prefix set bytes_eq
secret_value_kept_example =
    secret_value_kept accepts_all (codes "w") [] (codes "e") staging
      ((codes "host", codes "is s3") ∷ []) [] idle (codes "host") ((λ same. leaked), tt) tt

written_value_seen_example : Reads (codes "host") (codes "x") (codes "w") (root ∷ []) (codes "e") (
    apply_variable_writes accepts_all
      (codes "w")
      (folder_rows (root ∷ []))
      (codes "e")
      (some staging)
      ((codes "host", codes "x") ∷ [])
      []
      idle)
unfolding load_environment find_environment get bytes_eq secret_values contains_secret_value
    contains_text strip_prefix set
written_value_seen_example =
    written_value_seen accepts_all (codes "w") (root ∷ []) (codes "e") (codes "host") (codes "x")
      (some staging) (some staging) ((codes "host", codes "x") ∷ []) [] idle refl tt tt tt (tt, tt)
      refl tt refl refl
