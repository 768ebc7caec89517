-- ===== src/Node/Examples.antt =====
-- The theorems on the node package at concrete inputs.
use ppanel_node.Base.{
  if◌then◌else◌, ℕ, suc, nat_beq, ◌≡◌, refl, ◌⊎◌, String, some, List, [], ◌∷◌, Bool, true, false,
  not, ◌&&◌, arith, All,
}
use ppanel_node.Base.Eq.{string_eq}
use ppanel_node.Base.Int.{pos}
use ppanel_node.Base.Map.{lookup, insert, delete}
use ppanel_node.Base.Text.{itoa}
use ppanel_node.Panel.Types.{UserInfo, get_user_alive}
use ppanel_node.Panel.Protocol.{Protocol}
use ppanel_node.Limiter.{manager_add}
use ppanel_node.Traffic.Word.{lt64}
use ppanel_node.Traffic.Counter.{TrafficCounter}
use ppanel_node.Core.Users.{UserManagers, Core}
use ppanel_node.Node.UserList.{compare_user_list, user_key, index_users, find_added, pick_deleted}
use ppanel_node.Node.UserList.Compare.{has_key, repeats, DistinctKeys, compare_user_list-keys}
use ppanel_node.Node.Controller.{Controller}
use ppanel_node.Node.Controller.Monitor.{fetched, user_list_monitor}
use ppanel_node.Node.Controller.Monitor.Laws.{
  IsHeld, IsSynced, refreshed, monitor_same, user_list_monitor-Round,
}
use ppanel_node.Node.Lifecycle.{Env, Life, Node, start, stop, node_start}
use ppanel_node.Node.Lifecycle.Rollback.{
  IsIdle, AllRunning, node_start-AllOrNothing, stop_failed-start,
}
use ppanel_node.Node.Lifecycle.Reload.{Loading, reload, IsSafe, reload-IsSafe}

abbrev alice : UserInfo
alice = record { id = pos 7; uuid = "alice"; speed_limit = pos 0; device_limit = pos 0 }

abbrev bob : UserInfo
bob = record { id = pos 8; uuid = "bob"; speed_limit = pos 0; device_limit = pos 0 }

compare_user_list-keys_example :
    (deleted added : List UserInfo) × (compare_user_list (alice ∷ []) (alice ∷ bob ∷ [])
      ≡ some (deleted, added))
    × ((k : String)
        → has_key k deleted ≡ (not (has_key k (alice ∷ bob ∷ [])) && has_key k (alice ∷ [])))
    × ((k : String)
        → has_key k added ≡ (
            if has_key k (alice ∷ [])
            then repeats k (alice ∷ bob ∷ [])
            else has_key k (alice ∷ bob ∷ [])))
compare_user_list-keys_example = compare_user_list-keys (alice ∷ []) (alice ∷ bob ∷ [])

bob_added : compare_user_list (alice ∷ []) (alice ∷ bob ∷ []) ≡ some ([], bob ∷ [])
unfolding compare_user_list index_users find_added pick_deleted lookup insert delete user_key itoa
bob_added = refl

-- A changed device limit is no change for `compareUserList`, so the limiter never learns of it.
device_limit_ignored :
    compare_user_list (alice ∷ []) (record alice { device_limit = pos 3 } ∷ []) ≡ some ([], [])
unfolding compare_user_list index_users find_added pick_deleted lookup insert delete user_key itoa
device_limit_ignored = refl

-- User managers that fail on every call.
abbrev pub failing_managers : UserManagers
failing_managers = record {
  State = Bool;
  has_manager = λ s tag. s;
  remove_user = λ s tag email. (s, true);
  add_user = λ s tag p. (s, true);
  is_usable = λ p. true;
}

abbrev protocol : Protocol
protocol = record {
  kind = "tuic";
  port = pos 443;
  enable = true;
  security = "tls";
  sni = "";
  reality_server_port = pos 0;
  reality_private_key = "";
  reality_short_id = "";
  transport = "";
  cipher = "";
  server_key = "";
  flow = "";
  encryption = "";
  encryption_mode = "";
  encryption_ticket = "";
  encryption_private_key = "";
  cert_mode = "file";
}

abbrev pub server : Core failing_managers
server = record { managers = true; uid_map = []; counters = []; link_managers = []; closed = [] }

abbrev pub controller : Controller failing_managers
controller = record {
  tag = "in";
  info = record {
    id = pos 1;
    kind = "tuic";
    push_interval = pos 60;
    pull_interval = pos 60;
    traffic_report_threshold = pos 0;
    protocol = protocol;
  };
  api_client = record { api_host = "p"; secret_key = "k"; node_type = "tuic"; node_id = pos 1 };
  user_list = alice ∷ [];
  limiter = (manager_add [] "in" (alice ∷ []) get_user_alive "tuic").1;
  server = server;
  traffic = [];
}

one_key : DistinctKeys controller.user_list
unfolding has_key
one_key = (refl, tt)

nothing_happens :
    user_list_monitor failing_managers controller (fetched (alice ∷ []))
    ≡ some (refreshed failing_managers controller)
nothing_happens = monitor_same failing_managers controller one_key

user_list_monitor-Round_example :
    (deleted more : List UserInfo) × (compare_user_list controller.user_list (alice ∷ [])
      ≡ some (deleted, more))
    × (IsHeld failing_managers controller deleted more (refreshed failing_managers controller)
        ⊎ IsSynced failing_managers controller
            (alice ∷ [])
            deleted
            more
            (refreshed failing_managers controller))
user_list_monitor-Round_example =
    user_list_monitor-Round failing_managers controller (refreshed failing_managers controller)
      (alice ∷ []) nothing_happens

abbrev pub counters : TrafficCounter
counters = ("in|alice", record { up_counter = 5; down_counter = 6 }) ∷ []

zero_threshold : lt64 0 0 ≡ false
unfolding lt64
zero_threshold = refl

-- The second call of `AddUsers` fails; inbounds are removed without an error.
abbrev test_env : Env
test_env = record {
  State = ℕ;
  fetch = λ s id. (s, false);
  add_limiter = λ s id. s;
  delete_limiter = λ s id. s;
  add_node_config = λ s id. (s, false);
  add_users = λ s id. (suc s, nat_beq s 1);
  del_node = λ s id. (s, false);
  collect_traffic = λ s id. s;
}

abbrev life : ℕ → Life
life id = record {
  id = id;
  enable = true;
  renews = false;
  tagged = false;
  prepared = false;
  started = false;
  has_limiter = false;
  user_list_monitor = false;
  renew_cert = false;
}

abbrev two_nodes : Node test_env
two_nodes = record { controllers = life 1 ∷ life 2 ∷ []; report_periodic = false }

reliable : (s : ℕ) (id : ℕ) → (test_env.del_node s id).1 ≡ false
reliable s id = refl

two_idle : All IsIdle two_nodes.controllers
two_idle = ((refl, refl, refl), ((refl, refl, refl), tt))

node_start-AllOrNothing_example :
    ((node_start test_env 0 two_nodes).2 ≡ true
      → All IsIdle (node_start test_env 0 two_nodes).1.controllers)
    × ((node_start test_env 0 two_nodes).2 ≡ false
        → AllRunning test_env (node_start test_env 0 two_nodes).1.controllers
          × ((node_start test_env 0 two_nodes).1.report_periodic ≡ true))
node_start-AllOrNothing_example = node_start-AllOrNothing test_env 0 two_nodes reliable two_idle

abbrev stuck_env : Env
stuck_env = record test_env { del_node = λ s id. (s, true) }

abbrev running : Life
running = record (life 1) { started = true; user_list_monitor = true }

stop_failed-start_example :
    ((stop stuck_env 0 running).2 ≡ true)
    × (start stuck_env (stop stuck_env 0 running).0 (stop stuck_env 0 running).1
        ≡ ((stop stuck_env 0 running).0, (stop stuck_env 0 running).1, false))
    × ((stop stuck_env 0 running).1.user_list_monitor ≡ false)
stop_failed-start_example = stop_failed-start stuck_env 0 running refl refl

abbrev loading : Loading test_env
loading = record { load = λ s. (s, some two_nodes); close_new = λ s. s; close_old = λ s. s }

abbrev served : Node test_env
served = record { controllers = running ∷ []; report_periodic = true }

loads_idle : (s : ℕ) (n : Node test_env) → (loading.load s).1 ≡ some n → All IsIdle n.controllers
loads_idle s n e = ground (arith, e)

reload-IsSafe_example :
    IsSafe test_env loading reliable loads_idle served (reload test_env loading 0 served).1
reload-IsSafe_example = reload-IsSafe test_env loading reliable loads_idle served 0
