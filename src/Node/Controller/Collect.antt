-- ===== src/Node/Controller/Collect.antt =====
-- node/traffic.go: `collectTraffic` moves traffic from the counters of the core into the queue.
use ppanel_node.Base.{
  ℕ, ◌+◌, ◌%◌, ◌^◌, ◌≡◌, refl, ap, ◌∙◌, String, Option, some, List, [], ◌∷◌, arith,
}
use ppanel_node.Base.Eq.{string_eq}
use ppanel_node.Base.Int.{ℤ}
use ppanel_node.Base.Map.{Map, lookup, insert, lookup-insert_self}
use ppanel_node.Panel.Types.{UserTraffic}
use ppanel_node.Traffic.Word.{add64}
use ppanel_node.Traffic.Counter.{TrafficStorage, TrafficCounter}
use ppanel_node.Traffic.Slice.{slice_entries, get_user_traffic_slice, nil_if_empty}
use ppanel_node.Traffic.Slice.Laws.{known_sum, report_sum, slice_entries_conserves}
use ppanel_node.Traffic.Queue.{TrafficQueue, key_of, add}
use ppanel_node.Traffic.Queue.Sums.{Direction, count}
use ppanel_node.Traffic.Queue.Total.{pending_total, pending_total-add}
use ppanel_node.Core.Users.{UserManagers}
use ppanel_node.Node.Controller.{Controller, collect_traffic, slice_or_empty}

-- The counter of a direction.
unfoldable pub side : Direction → TrafficStorage → ℕ
side Direction.uploads s = s.up_counter
side Direction.downloads s = s.down_counter

slice_conserves :
    (dir : Direction) (uids : Map String ℤ) (threshold : ℕ) (tc : TrafficCounter)
    → known_sum uids (side dir) tc
      ≡ add64
          (known_sum uids (side dir) (slice_entries uids threshold tc).0)
          (report_sum (count dir) (slice_entries uids threshold tc).1)
unfolding side count
slice_conserves Direction.uploads uids threshold tc = (slice_entries_conserves uids threshold tc).0
slice_conserves Direction.downloads uids threshold tc =
    (slice_entries_conserves uids threshold tc).1

slice_nil : (ts : List UserTraffic) → slice_or_empty (nil_if_empty ts) ≡ ts
slice_nil [] = refl
slice_nil (t ∷ ts) = refl

sliced :
    (counters : Map String TrafficCounter) (uids : Map String ℤ) (tag : String) (threshold : ℕ)
    (tc : TrafficCounter)
    → lookup tag counters ≡ some tc
    → get_user_traffic_slice counters uids tag threshold ≡ (
      insert tag (slice_entries uids threshold tc).0 counters,
      nil_if_empty (slice_entries uids threshold tc).1,
    )
unfolding get_user_traffic_slice
sliced counters uids tag threshold tc e = rw (e, get_user_traffic_slice) refl

module _ (m : UserManagers) where
  collected :
      (c : Controller m) (threshold : ℕ) (tc : TrafficCounter)
      → lookup c.tag c.server.counters ≡ some tc
      → ((collect_traffic m c threshold).0.server.counters
          ≡ insert c.tag (slice_entries c.server.uid_map threshold tc).0 c.server.counters)
        × ((collect_traffic m c threshold).0.traffic
            ≡ add c.traffic c.api_client (slice_entries c.server.uid_map threshold tc).1)
  unfolding collect_traffic
  collected c threshold tc e =
      let taken = sliced c.server.counters c.server.uid_map c.tag threshold tc e in
      (
        ap (λ (r : Map String TrafficCounter × Option (List UserTraffic)). r.0) taken,
        ap
              (λ (r : Map String TrafficCounter × Option (List UserTraffic)).
                add c.traffic c.api_client (slice_or_empty r.1))
              taken
            ∙ ap (λ ts. add c.traffic c.api_client ts)
                (slice_nil (slice_entries c.server.uid_map threshold tc).1),
      )

  -- Collecting traffic, as before users are deleted and when a node stops, loses none: for each
  -- direction, what the users known to the core have on the counters of the inbound and what is
  -- pending at its destination add up to the same before and after, in the 64-bit arithmetic of the
  -- counters.
  pub collect_traffic-conserves :
      (c : Controller m) (threshold : ℕ) (tc : TrafficCounter) (dir : Direction)
      → lookup c.tag c.server.counters ≡ some tc
      → (left : TrafficCounter) × (lookup c.tag (collect_traffic m c threshold).0.server.counters
          ≡ some left)
        × ((known_sum c.server.uid_map (side dir) left
                + pending_total dir (key_of c.api_client) (collect_traffic m c threshold).0.traffic)
              % 2 ^ 64
            ≡ (known_sum c.server.uid_map (side dir) tc
                + pending_total dir (key_of c.api_client) c.traffic)
              % 2 ^ 64)
  unfolding add64
  collect_traffic-conserves c threshold tc dir e =
      let (counters, traffic) = collected c threshold tc e in
      let taken = slice_entries c.server.uid_map threshold tc in
      let added = pending_total-add dir c.traffic c.api_client taken.1 in
      (
        taken.0,
        ap (λ (cs : Map String TrafficCounter). lookup c.tag cs) counters
            ∙ lookup-insert_self c.tag taken.0 c.server.counters,
        ap
              (λ (q : TrafficQueue).
                (known_sum c.server.uid_map (side dir) taken.0
                  + pending_total dir (key_of c.api_client) q)
                % 2 ^ 64)
              traffic
            ∙ omega (arith, added, slice_conserves dir c.server.uid_map threshold tc),
      )
