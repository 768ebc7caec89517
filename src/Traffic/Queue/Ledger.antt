-- ===== src/Traffic/Queue/Ledger.antt =====
-- The queue of node/traffic.go over a run: intervals in which traffic is added and reports are sent,
-- in any order and with any outcome.
use ppanel_node.Base.{ℕ, ◌+◌, ◌%◌, ◌^◌, ◌≡◌, List, [], ◌∷◌, if◌then◌else◌, arith}
use ppanel_node.Base.Eq.{◌==◌}
use ppanel_node.Base.Int.{ℤ, int_eq}
use ppanel_node.Panel.Types.{UserTraffic}
use ppanel_node.Traffic.Queue.{
  NodeClient, TrafficDestination, TrafficQueue, Outcome, destination_eq, key_of, new_traffic_queue,
  add, report,
}
use ppanel_node.Traffic.Queue.Sums.{Direction, sum_of, pending, pending-add}
use ppanel_node.Traffic.Queue.Delivery.{
  IsGood, new-IsGood, add-IsGood, report-IsGood, delivered, report_balance, pending-new,
}

pub data Event : Type 0 where
  added : (client : NodeClient) (traffic : List UserTraffic) → Event
  reported : (outcome : TrafficDestination → Outcome) → Event

unfoldable pub run : List Event → TrafficQueue → TrafficQueue
unfolding add report
run [] q = q
run (Event.added client ts ∷ es) q = run es (add q client ts)
run (Event.reported outcome ∷ es) q = run es (report outcome q).0

-- What the run adds for a user at a destination.
unfoldable pub total_added : Direction → TrafficDestination → ℤ → List Event → ℕ
unfolding sum_of
total_added dir key uid [] = 0
total_added dir key uid (Event.added client ts ∷ es) =
    (if key_of client == key then sum_of dir uid ts else 0) + total_added dir key uid es
total_added dir key uid (Event.reported outcome ∷ es) = total_added dir key uid es

-- What the reports of the run deliver.
unfoldable pub total_delivered : Direction → TrafficDestination → ℤ → List Event → TrafficQueue → ℕ
unfolding delivered add report
total_delivered dir key uid [] q = 0
total_delivered dir key uid (Event.added client ts ∷ es) q =
    total_delivered dir key uid es (add q client ts)
total_delivered dir key uid (Event.reported outcome ∷ es) q =
    delivered dir key uid (report outcome q).1 + total_delivered dir key uid es (report outcome q).0

run_balance :
    (dir : Direction) (key : TrafficDestination) (uid : ℤ) (es : List Event) (q : TrafficQueue)
    → IsGood q
    → (pending dir key uid (run es q) + total_delivered dir key uid es q) % 2 ^ 64
      ≡ (pending dir key uid q + total_added dir key uid es) % 2 ^ 64
unfolding run total_added total_delivered
run_balance dir key uid [] q w = omega arith
run_balance dir key uid (Event.added client ts ∷ es) q w = omega (
  arith,
  run_balance dir key uid es (add q client ts) (add-IsGood q client ts w),
  pending-add dir key uid q client ts,
)
run_balance dir key uid (Event.reported outcome ∷ es) q w = omega (
  arith,
  run_balance dir key uid es (report outcome q).0 (report-IsGood outcome q w),
  report_balance outcome dir key uid q w,
)

-- Over every sequence of `add` and `report` from the empty queue, for each user at each destination,
-- what is pending at the end and what acknowledged reports delivered add up to what was added, in the
-- 64-bit arithmetic of the counters. A report whose answer is lost stays pending and is sent again; what
-- the panel has made of it is not counted here.
pub run_conserves_traffic :
    (dir : Direction) (key : TrafficDestination) (uid : ℤ) (es : List Event)
    → (pending dir key uid (run es new_traffic_queue)
          + total_delivered dir key uid es new_traffic_queue)
        % 2 ^ 64
      ≡ total_added dir key uid es % 2 ^ 64
run_conserves_traffic dir key uid es =
    omega (arith, run_balance dir key uid es new_traffic_queue new-IsGood, pending-new dir key uid)
