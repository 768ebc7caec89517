-- ===== src/Node/Controller/Examples.antt =====
-- `collectTraffic` at a concrete input.
use ppanel_node.Base.{◌+◌, ◌%◌, ◌^◌, ◌≡◌, refl, some, [], ◌∷◌}
use ppanel_node.Base.Eq.{string_eq}
use ppanel_node.Base.Int.{pos}
use ppanel_node.Base.Map.{lookup}
use ppanel_node.Traffic.Counter.{TrafficCounter}
use ppanel_node.Traffic.Slice.Laws.{known_sum}
use ppanel_node.Traffic.Queue.{key_of}
use ppanel_node.Traffic.Queue.Sums.{Direction}
use ppanel_node.Traffic.Queue.Total.{pending_total}
use ppanel_node.Node.Controller.{Controller, collect_traffic}
use ppanel_node.Node.Controller.Collect.{side, collect_traffic-conserves}
use ppanel_node.Node.Examples.{failing_managers, controller, server, counters}

abbrev busy : Controller failing_managers
busy = record controller {
  server = record server { counters = ("in", counters) ∷ []; uid_map = ("in|alice", pos 7) ∷ [] };
}

busy_counters : lookup busy.tag busy.server.counters ≡ some counters
unfolding lookup
busy_counters = refl

collect_traffic-conserves_example :
    (left : TrafficCounter) × (lookup busy.tag
        (collect_traffic failing_managers busy 0).0.server.counters
      ≡ some left)
    × ((known_sum busy.server.uid_map (side Direction.uploads) left
            + pending_total Direction.uploads
                (key_of busy.api_client)
                (collect_traffic failing_managers busy 0).0.traffic)
          % 2 ^ 64
        ≡ (known_sum busy.server.uid_map (side Direction.uploads) counters
            + pending_total Direction.uploads (key_of busy.api_client) busy.traffic)
          % 2 ^ 64)
collect_traffic-conserves_example =
    collect_traffic-conserves failing_managers busy 0 counters Direction.uploads busy_counters
