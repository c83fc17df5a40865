-- ===== src/Storage/Tree.antt =====
-- internal/storage/filestore.go: folders and requests, where they are put, and how they are removed.
-- Of the saved data an item keeps its id, its workspace, its parent folder and its order key. Which
-- files can be written and removed is an argument of each call; a key is `none` where minting panics.
-- The removal of a folder runs on fuel, whose end is an error of the model's own.
pub mod Last
pub mod Steps
pub mod Cascade
pub mod Ends
mod Tests
use auk.Base.{
  ℕ, zero, suc, Bool, true, false, not, ◌&&◌, List, [], ◌∷◌, Option, none, some, if◌then◌else◌,
}
use auk.Base.Text.{Bytes, bytes_eq, bytes_lt, is_blank}
use auk.Storage.OrderKey.{order_key_between}

-- what the store reads of a `model.Folder` or a `model.RequestDef`
pub record Item : Type 0 where
  pub id : Bytes
  pub workspace_id : Bytes
  pub parent : Option Bytes
  pub order_key : Bytes

pub record Tree : Type 0 where
  pub folders : List Item
  pub requests : List Item
  pub responses : List Bytes

pub data TreeError : Type 0 where
  not_written not_removed : Bytes → TreeError
  panic out_of_fuel : TreeError

-- `sameParent`
abbrev pub same_parent : Option Bytes → Option Bytes → Bool
same_parent none none = true
same_parent none (some b) = false
same_parent (some a) none = false
same_parent (some a) (some b) = bytes_eq a b

abbrev pub is_sibling : Item → Item → Bool
is_sibling x y = bytes_eq y.workspace_id x.workspace_id && same_parent y.parent x.parent

-- the greatest key of the siblings
unfoldable pub last_key : Item → List Item → Bytes → Bytes
last_key x [] last = last
last_key x (y ∷ items) last =
    last_key x items (if is_sibling x y && bytes_lt last y.order_key then y.order_key else last)

-- `nextFolderOrderKeyLocked` and `nextRequestOrderKeyLocked`
unfoldable pub next_order_key : Item → List Item → Option Bytes
unfolding last_key
next_order_key x items = order_key_between (last_key x items []) []

abbrev pub drop_item : Bytes → List Item → List Item
drop_item id [] = []
drop_item id (x ∷ items) =
    let rest = drop_item id items in if bytes_eq x.id id then rest else x ∷ rest

abbrev pub keyed : Item → Option Bytes → Option Item
keyed x none = none
keyed x (some k) = some (record x { order_key = k })

abbrev pub with_key : Item → List Item → Option Item
with_key x items = if is_blank x.order_key then keyed x (next_order_key x items) else some x

abbrev pub written : Bool → Option Item → List Item → Option TreeError × List Item
written writes none items = (some panic, items)
written writes (some x) items =
    if writes then (none, x ∷ drop_item x.id items) else (some (not_written x.id), items)

-- `PutFolder` and `PutRequest`, on the folders or the requests
unfoldable pub put_item : Bool → Item → List Item → Option TreeError × List Item
unfolding next_order_key
put_item writes x items = written writes (with_key x items) items

abbrev pub is_in : Bytes → Item → Bool
is_in id x = same_parent x.parent (some id)

-- the ids of the items in a folder
abbrev pub ids_in : Bytes → List Item → List Bytes
ids_in id [] = []
ids_in id (x ∷ items) = let rest = ids_in id items in if is_in id x then x.id ∷ rest else rest

unfoldable pub has : Bytes → List Item → Bool
has id [] = false
has id (x ∷ items) = if bytes_eq x.id id then true else has id items

abbrev pub drop_name : Bytes → List Bytes → List Bytes
drop_name id [] = []
drop_name id (j ∷ js) = let rest = drop_name id js in if bytes_eq j id then rest else j ∷ rest

-- `removeRequestLocked`; a file that is gone already is no failure
unfoldable pub remove_request : (Bytes → Bool) → Bytes → Tree → Option TreeError × Tree
unfolding has
remove_request removes id t =
    if has id t.requests
    then (if removes id
        then (
          none,
          record t { requests = drop_item id t.requests; responses = drop_name id t.responses },
        )
        else (some (not_removed id), t))
    else (none, t)

-- one removal after another, up to the first error
abbrev pub go_on :
    Option TreeError × Tree → (Tree → Option TreeError × Tree) → Option TreeError × Tree
go_on (some e, t) next = (some e, t)
go_on (none, t) next = next t

abbrev pub each :
    (Bytes → Tree → Option TreeError × Tree) → List Bytes → Tree → Option TreeError × Tree
each remove [] t = (none, t)
each remove (id ∷ ids) t = go_on (remove id t) (each remove ids)

abbrev pub remove_folder_file : (Bytes → Bool) → Bytes → Tree → Option TreeError × Tree
remove_folder_file removes id t =
    if removes id
    then (none, record t { folders = drop_item id t.folders })
    else (some (not_removed id), t)

abbrev pub remove_requests_in : (Bytes → Bool) → Bytes → Tree → Option TreeError × Tree
remove_requests_in removes id t = each (remove_request removes) (ids_in id t.requests) t

-- `removeFolderLocked`
unfoldable pub remove_folder : ℕ → (Bytes → Bool) → Bytes → Tree → Option TreeError × Tree
unfolding remove_request has
remove_folder zero removes id t = (some out_of_fuel, t)
remove_folder (suc fuel) removes id t =
    let rest =
      go_on (each (remove_folder fuel removes) (ids_in id t.folders) t)
        (λ t1. go_on (remove_requests_in removes id t1) (remove_folder_file removes id)) in
    if has id t.folders then rest else (none, t)
