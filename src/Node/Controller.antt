-- ===== src/Node/Controller.antt =====
-- node/controller.go and node/task.go: the controller of an inbound as far as its users and its
-- traffic go; `server` is the running core.
pub mod Monitor
pub mod Online
pub mod Collect
mod Examples
use ppanel_node.Base.{
  ℕ, String, Option, none, some, List, [], ◌∷◌, Bool, true, false, if◌then◌else◌,
}
use ppanel_node.Base.Eq.{string_eq}
use ppanel_node.Base.Int.{ℤ}
use ppanel_node.Base.Map.{Map, lookup}
use ppanel_node.Panel.Types.{UserInfo, UserTraffic}
use ppanel_node.Panel.Protocol.{NodeInfo}
use ppanel_node.Limiter.{Limiter}
use ppanel_node.Traffic.Slice.{get_user_traffic_slice}
use ppanel_node.Traffic.Queue.{NodeClient, TrafficQueue, add}
use ppanel_node.Core.Users.{UserManagers, Core}

abbrev pub slice_or_empty : Option (List UserTraffic) → List UserTraffic
slice_or_empty none = []
slice_or_empty (some ts) = ts

module _ (m : UserManagers) where
  pub record Controller : Type 0 where
    pub tag : String
    pub info : NodeInfo
    pub api_client : NodeClient
    pub user_list : List UserInfo
    pub limiter : Limiter
    pub server : Core m
    pub traffic : TrafficQueue

  -- `collectTraffic`, with the threshold as the bit pattern of an `int64`.
  unfoldable pub collect_traffic : Controller → ℕ → Controller × List UserTraffic
  unfolding get_user_traffic_slice add
  collect_traffic c threshold =
      let (counters, slice) =
        get_user_traffic_slice c.server.counters c.server.uid_map c.tag threshold in
      let traffic = slice_or_empty slice in
      let server : Core m = record c.server { counters = counters } in
      (record c { server = server; traffic = add c.traffic c.api_client traffic }, traffic)
