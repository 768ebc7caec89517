-- ===== src/Node/Controller/Monitor.antt =====
-- node/task.go: `userListMonitor`, one round of keeping the users in step with the panel.
pub mod Laws
use ppanel_node.Base.{
  ℕ, String, Option, none, some, List, [], ◌∷◌, Bool, true, false, if◌then◌else◌,
}
use ppanel_node.Panel.Types.{UserInfo, get_user_alive}
use ppanel_node.Limiter.{Limiter, update_user}
use ppanel_node.Core.Users.{
  UserManagers, Core, del_users, add_users, Added, added_users, add_failed, add_panicked,
}
use ppanel_node.Node.UserList.{compare_user_list}
use ppanel_node.Node.Controller.{Controller, collect_traffic}

-- What `GetUserList` returns: an error, nil for "304 Not Modified", or the list.
pub data Fetched : Type 0 where
  fetch_failed not_modified : Fetched
  fetched : List UserInfo → Fetched

module _ (m : UserManagers) where
  -- The controller after a part of the round, and whether that part logged an error and gave up.
  abbrev pub Part : Type 0
  Part = Controller m × Bool

  unfoldable pub apply_deleted : Controller m → List UserInfo → Part
  unfolding collect_traffic del_users
  apply_deleted c [] = (c, false)
  apply_deleted c (u ∷ us) =
      let c' = (collect_traffic m c 0).0 in
      let (server, failed) = del_users m c'.server (u ∷ us) c'.tag in
      (record c' { server = server }, failed)

  abbrev added_part : Controller m → Core m × Added → Option Part
  added_part c (server, added_users n) = some (record c { server = server }, false)
  added_part c (server, add_failed) = some (record c { server = server }, true)
  added_part c (server, add_panicked) = none

  -- `none` is a panic.
  unfoldable pub apply_added : Controller m → List UserInfo → Option Part
  unfolding add_users
  apply_added c [] = some (c, false)
  apply_added c (u ∷ us) = added_part c (add_users m c.server c.tag c.info (u ∷ us))

  abbrev updated_limiter : Controller m → List UserInfo → List UserInfo → Limiter
  updated_limiter c [] [] = c.limiter
  updated_limiter c deleted added = update_user c.limiter c.tag added deleted

  abbrev finish_round :
      List UserInfo → List UserInfo → List UserInfo → Option Part → Option (Controller m)
  finish_round new deleted added none = none
  finish_round new deleted added (some (c, true)) = some c
  finish_round new deleted added (some (c, false)) =
      some (record c { limiter = updated_limiter c deleted added; user_list = new })

  abbrev add_after : List UserInfo → Part → Option Part
  add_after added (c, true) = some (c, true)
  add_after added (c, false) = apply_added c added

  abbrev apply_changes :
      Controller m → List UserInfo → Option (List UserInfo × List UserInfo) → Option (Controller m)
  apply_changes c new none = none
  apply_changes c new (some (deleted, added)) =
      finish_round new deleted added (add_after added (apply_deleted c deleted))

  unfoldable pub user_list_monitor : Controller m → Fetched → Option (Controller m)
  unfolding apply_deleted apply_added update_user compare_user_list
  user_list_monitor c fetch_failed = some c
  user_list_monitor c not_modified =
      some (record c { limiter = record c.limiter { alive_list = get_user_alive } })
  user_list_monitor c (fetched new) =
      let c' : Controller m = record c {
        limiter = record c.limiter { alive_list = get_user_alive };
      } in
      apply_changes c' new (compare_user_list c.user_list new)
