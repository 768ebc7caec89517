-- ===== src/Core/Users.antt =====
-- core/user.go: `DelUsers` and `AddUsers`, on the state of the core that they change. The user
-- managers of xray-core are the parameter `UserManagers`.
pub mod Laws
use ppanel_node.Base.{
  ℕ, String, Option, none, some, List, [], ◌∷◌, ◌++◌, Bool, true, false, if◌then◌else◌, length,
}
use ppanel_node.Base.Eq.{string_eq, nat_eq}
use ppanel_node.Base.Int.{ℤ}
use ppanel_node.Base.Map.{Map, lookup, insert, delete}
use ppanel_node.Panel.Types.{UserInfo}
use ppanel_node.Panel.Format.{user_tag}
use ppanel_node.Panel.Protocol.{NodeInfo, Protocol}
use ppanel_node.Traffic.Counter.{TrafficCounter, remove}
use ppanel_node.Core.Accounts.{ProtocolUser, Built, unsupported, panicked, built, build_users}

-- The inbound handlers of xray-core: whether a tag has a user manager, and its two operations with
-- whether they fail; `is_usable` tells whether `ToMemoryUser` succeeds.
pub record UserManagers : Type 1 where
  pub State : Type 0
  pub has_manager : State → String → Bool
  pub remove_user : State → String → String → State × Bool
  pub add_user : State → String → ProtocolUser → State × Bool
  pub is_usable : ProtocolUser → Bool

-- `LinkManager`: the readers by the writers of the links; both are numbered.
abbrev pub LinkManager : Type 0
LinkManager = Map ℕ ℕ

unfoldable pub add_link : LinkManager → ℕ → ℕ → LinkManager
add_link links writer reader = insert writer reader links

unfoldable pub remove_writer : LinkManager → ℕ → LinkManager
remove_writer links writer = delete writer links

-- `CloseAll`: the manager afterwards, and the links whose writer is closed and reader interrupted.
unfoldable pub close_all : LinkManager → LinkManager × List (ℕ × ℕ)
close_all links = ([], links)

-- The result of `AddUsers`: the number of users, an error, or the panic of a builder.
pub data Added : Type 0 where
  added_users : ℕ → Added
  add_failed add_panicked : Added

module _ (m : UserManagers) where
  pub record Core : Type 0 where
    pub managers : m.State
    pub uid_map : Map String ℤ
    pub counters : Map String TrafficCounter
    pub link_managers : Map String LinkManager
    pub closed : List (ℕ × ℕ)

  abbrev forget_counter : String → String → Map String TrafficCounter → Map String TrafficCounter
  forget_counter tag user counters = elim (lookup tag counters) [
    | none ↦ counters
    | some tc ↦ insert tag (remove tc user) counters
  ]

  abbrev close_links : String → Core → Core
  close_links user c = elim (lookup user c.link_managers) [
    | none ↦ c
    | some links ↦
        let (links', closed) = close_all links in
        record c {
          link_managers = delete user (insert user links' c.link_managers);
          closed = c.closed ++ closed;
        }
  ]

  -- What `DelUsers` drops of a user after xray has removed it.
  unfoldable pub forget_user : String → String → Core → Core
  unfolding close_all remove
  forget_user tag user c =
      close_links user (record c {
        uid_map = delete user c.uid_map;
        counters = forget_counter tag user c.counters;
      })

  -- The loop; the Boolean tells whether an error is returned.
  unfoldable pub del_each : String → List UserInfo → Core → Core × Bool
  unfolding forget_user
  del_each tag [] c = (c, false)
  del_each tag (u ∷ us) c =
      let user = user_tag tag u.uuid in
      let (state, failed) = m.remove_user c.managers tag user in
      let removed : Core = record c { managers = state } in
      let rest = del_each tag us (forget_user tag user removed) in
      if failed then (removed, true) else rest

  unfoldable pub del_users : Core → List UserInfo → String → Core × Bool
  unfolding del_each
  del_users c users tag = if m.has_manager c.managers tag then del_each tag users c else (c, true)

  unfoldable pub store_uids : String → List UserInfo → Map String ℤ → Map String ℤ
  store_uids tag [] uids = uids
  store_uids tag (u ∷ us) uids = store_uids tag us (insert (user_tag tag u.uuid) u.id uids)

  -- The last loop of `AddUsers`.
  unfoldable pub register : String → List ProtocolUser → m.State → m.State × Bool
  register tag [] s = (s, false)
  register tag (p ∷ ps) s =
      let (s', failed) = m.add_user s tag p in
      let rest = register tag ps s' in
      if m.is_usable p then (if failed then (s', true) else rest) else (s, true)

  abbrev finish_add : String → Core → Built → Core × Added
  finish_add tag c unsupported = (c, add_failed)
  finish_add tag c panicked = (c, add_panicked)
  finish_add tag c (built ps) =
      if m.has_manager c.managers tag
      then (let (s, failed) = register tag ps c.managers in
          (record c { managers = s }, if failed then add_failed else added_users (length ps)))
      else (c, add_failed)

  unfoldable pub add_users : Core → String → NodeInfo → List UserInfo → Core × Added
  unfolding store_uids register build_users
  add_users c tag info users =
      finish_add tag (record c { uid_map = store_uids tag users c.uid_map })
        (build_users info.kind info.protocol.flow info.protocol.cipher info.protocol.server_key tag
          users)
