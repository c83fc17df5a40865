-- ===== src/Storage/Environments/Blank.antt =====
-- No file of an environment has a secret's value.
use auk.Base.{◌≡◌, refl, inl, inr, true, List, [], ◌∷◌, Option, none, some, Bool-cases, All}
use auk.Base.Text.{Bytes}
use auk.Core.Model.{KeyValue, Environment}
use auk.Core.Vars.{Vars, member}
use auk.Storage.Environments.{
  Files, Failures, StoreError, blank_value, map_rows, on_disk, same_file, remove_file, write_file,
  set_secrets, kept_in_memory, put_environment, delete_secrets, find, dropped_from_memory,
  remove_found, remove_environment,
}

-- the rows of secrets have no value
abbrev pub IsBlank : List Bytes → List KeyValue → Type 0
IsBlank secrets kvs = All (λ (kv : KeyValue). member kv.key secrets ≡ true → kv.value ≡ []) kvs

abbrev pub HasBlankFiles : List Environment → Type 0
HasBlankFiles files = All (λ (e : Environment). IsBlank e.secrets e.variables) files

-- What the application does with the store's environments, each with its own faults.
pub data Operation : Type 0 where
  put : Failures → Environment → Vars → Operation
  remove : Failures → Bytes → Operation

abbrev pub perform : Operation → Files → Files
perform (put f e values) s = (put_environment f e values s).1
perform (remove f id) s = (remove_environment f id s).1

abbrev pub perform_all : List Operation → Files → Files
perform_all [] s = s
perform_all (o ∷ os) s = perform_all os (perform o s)

map_rows-IsBlank :
    (secrets : List Bytes) (kvs : List KeyValue)
    → IsBlank secrets (map_rows (blank_value secrets) kvs)
map_rows-IsBlank secrets [] = tt
map_rows-IsBlank secrets (kv ∷ kvs) = (
  elim (Bool-cases (member kv.key secrets)) [
    | inl hit ↦ rw hit (λ _. refl)
    | inr miss ↦ rw miss (λ h. cc (h, miss))
  ],
  map_rows-IsBlank secrets kvs,
)

remove_file-HasBlankFiles :
    (e : Environment) (files : List Environment)
    → HasBlankFiles files
    → HasBlankFiles (remove_file e files)
remove_file-HasBlankFiles e [] h = tt
remove_file-HasBlankFiles e (f ∷ files) (h, hs) =
    let rest = remove_file-HasBlankFiles e files hs in
    elim (Bool-cases (same_file f e)) [ inl same ↦ rw same rest | inr other ↦ rw other (h, rest) ]

put-HasBlankFiles :
    (f : Failures) (e : Environment) (values : Vars) (s : Files)
    → HasBlankFiles s.disk
    → HasBlankFiles (put_environment f e values s).1.disk
unfolding put_environment on_disk
put-HasBlankFiles f e values s h = elim (Bool-cases f.writes_file) [
  | inr fails ↦ rw fails h
  | inl writes ↦ rw writes (
      go (set_secrets f e values s.keychain)
        (map_rows-IsBlank e.secrets e.variables, remove_file-HasBlankFiles (on_disk e) s.disk h))
]
  where
    go :
        (o : Option StoreError × Vars)
        → HasBlankFiles (write_file (on_disk e) s.disk)
        → HasBlankFiles
            (kept_in_memory e o (record s { disk = write_file (on_disk e) s.disk })).1.disk
    go (none, keychain) g = g
    go (some error, keychain) g = g

remove-HasBlankFiles :
    (f : Failures) (id : Bytes) (s : Files)
    → HasBlankFiles s.disk
    → HasBlankFiles (remove_environment f id s).1.disk
unfolding remove_environment
remove-HasBlankFiles f id s h = found (find id s.environments)
  where
    go :
        (e : Environment) (o : Option StoreError × Vars)
        → HasBlankFiles (remove_file e s.disk)
        → HasBlankFiles (dropped_from_memory id o (record s { disk = remove_file e s.disk })).1.disk
    go e (none, keychain) g = g
    go e (some error, keychain) g = g

    found : (o : Option Environment) → HasBlankFiles (remove_found f id o s).1.disk
    found none = h
    found (some e) = elim (Bool-cases f.removes_file) [
      | inr fails ↦ rw fails h
      | inl removes ↦
          rw removes
            (go e (delete_secrets f e e.secrets s.keychain) (remove_file-HasBlankFiles e s.disk h))
    ]

-- Whatever environments are put and removed, with whatever values in their rows and whatever failing
-- in between, each file has an empty value in every row of a name that it lists as a secret. The files
-- were so before.
pub perform_all-HasBlankFiles :
    (os : List Operation) (s : Files) → HasBlankFiles s.disk → HasBlankFiles (perform_all os s).disk
perform_all-HasBlankFiles [] s h = h
perform_all-HasBlankFiles (put f e values ∷ os) s h =
    perform_all-HasBlankFiles os (put_environment f e values s).1 (put-HasBlankFiles f e values s h)
perform_all-HasBlankFiles (remove f id ∷ os) s h =
    perform_all-HasBlankFiles os (remove_environment f id s).1 (remove-HasBlankFiles f id s h)
