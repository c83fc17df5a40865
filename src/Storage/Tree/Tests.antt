-- ===== src/Storage/Tree/Tests.antt =====
-- Folders and requests put and removed at concrete trees.
use auk.Base.{◌≡◌, ◌≢◌, refl, arith, Bool, true, [], ◌∷◌, Option, none, some}
use auk.Base.Text.{Bytes, codes, bytes_eq}
use auk.Storage.OrderKey.{digit_val, position}
use auk.Storage.OrderKey.Bounds.{IsKey}
use auk.Storage.Tree.{Item, Tree, put_item, drop_item, has, remove_request, remove_folder}
use auk.Storage.Tree.Last.{Behind, put_item-last}
use auk.Storage.Tree.Steps.{NoneIn}
use auk.Storage.Tree.Cascade.{remove_folder-NoneIn}

abbrev item : Bytes → Option Bytes → Bytes → Item
item id parent key = record { id = id; workspace_id = codes "w"; parent = parent; order_key = key }

abbrev tree : Tree
tree = record {
  folders =
      item (codes "a") none (codes "I") ∷ item (codes "b") (some (codes "a")) (codes "I") ∷ [];
  requests =
      item (codes "r") (some (codes "b")) (codes "I") ∷ item (codes "s") none (codes "I") ∷ [];
  responses = codes "r" ∷ [];
}

abbrev removes_all : Bytes → Bool
removes_all id = true

remove_nested : remove_folder 3 removes_all (codes "a") tree ≡ (
  none,
  record { folders = []; requests = item (codes "s") none (codes "I") ∷ []; responses = [] },
)
unfolding remove_folder remove_request has bytes_eq
remove_nested = refl

put_item-last_example :
    (k : Bytes) × (put_item true (item (codes "t") none []) (item (codes "s") none (codes "I") ∷ [])
      ≡ (
        none,
        record (item (codes "t") none []) { order_key = k }
            ∷ drop_item (codes "t") (item (codes "s") none (codes "I") ∷ []),
      ))
    × Behind (item (codes "t") none []) k (item (codes "s") none (codes "I") ∷ [])
    × IsKey k
    × (k ≢ [])
unfolding digit_val position
put_item-last_example =
    put_item-last (item (codes "t") none []) (item (codes "s") none (codes "I") ∷ []) refl
      ((λ _. (omega arith, tt)), tt)

remove_folder-NoneIn_example :
    NoneIn (codes "b") (remove_folder 3 removes_all (codes "a") tree).1.folders
    × NoneIn (codes "b") (remove_folder 3 removes_all (codes "a") tree).1.requests
unfolding remove_folder remove_request has bytes_eq
remove_folder-NoneIn_example =
    remove_folder-NoneIn 3 removes_all (codes "a") tree (codes "b") refl refl
