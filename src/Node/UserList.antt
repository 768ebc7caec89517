-- ===== src/Node/UserList.antt =====
-- node/task.go: `compareUserList`, which tells what changed between two user lists of the panel.
pub mod Compare
use ppanel_node.Base.{
  ℕ, suc, String, Option, none, some, List, [], ◌∷◌, Bool, true, false, if◌then◌else◌, get_elem?,
}
use Prim.Native.String.{◌++◌}
use ppanel_node.Base.Eq.{string_eq}
use ppanel_node.Base.Map.{Map, lookup, insert, delete, member}
use ppanel_node.Base.Text.{itoa}
use ppanel_node.Panel.Types.{UserInfo}

unfoldable pub user_key : UserInfo → String
user_key u = u.uuid ++ itoa u.speed_limit

-- The first loop, over the index and the users from it on: `oldMap[key] = i`.
unfoldable pub index_users : ℕ → List UserInfo → Map String ℕ → Map String ℕ
index_users i [] old_map = old_map
index_users i (u ∷ us) old_map = index_users (suc i) us (insert (user_key u) i old_map)

-- The second loop: the users whose key is not there, and the map without the keys that were found.
unfoldable pub find_added : List UserInfo → Map String ℕ → List UserInfo × Map String ℕ
find_added [] old_map = ([], old_map)
find_added (u ∷ us) old_map =
    let found = find_added us (delete (user_key u) old_map) in
    let missing = find_added us old_map in
    if member (user_key u) old_map then found else (u ∷ missing.0, missing.1)

abbrev pub prepend : UserInfo → Option (List UserInfo) → Option (List UserInfo)
prepend u none = none
prepend u (some us) = some (u ∷ us)

-- The third loop, `old[index]` for each index left; `none` is an index out of range, a panic.
unfoldable pub pick_deleted : List UserInfo → Map String ℕ → Option (List UserInfo)
pick_deleted old [] = some []
pick_deleted old ((key, index) ∷ old_map) =
    let rest = pick_deleted old old_map in
    elim (get_elem? old index) [ none ↦ none | some u ↦ prepend u rest ]

abbrev pub with_added :
    List UserInfo → Option (List UserInfo) → Option (List UserInfo × List UserInfo)
with_added added none = none
with_added added (some deleted) = some (deleted, added)

-- The users deleted and those added.
unfoldable pub compare_user_list :
    List UserInfo → List UserInfo → Option (List UserInfo × List UserInfo)
unfolding index_users find_added pick_deleted
compare_user_list old new =
    let (added, left) = find_added new (index_users 0 old []) in
    with_added added (pick_deleted old left)
