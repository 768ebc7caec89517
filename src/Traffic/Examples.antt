-- ===== src/Traffic/Examples.antt =====
-- The theorems on traffic at concrete inputs.
use ppanel_node.Base.{◌+◌, ◌%◌, ◌^◌, ◌≡◌, refl, String, List, [], ◌∷◌, false}
use ppanel_node.Base.Eq.{string_eq}
use ppanel_node.Base.Int.{ℤ, pos, int_eq}
use ppanel_node.Base.Map.{Map}
use ppanel_node.Panel.Types.{UserTraffic}
use ppanel_node.Traffic.Word.{lt64}
use ppanel_node.Traffic.Counter.{TrafficCounter}
use ppanel_node.Traffic.Slice.Laws.{}
use ppanel_node.Traffic.Queue.{
  NodeClient, TrafficDestination, TrafficQueue, Outcome, destination_eq, key_of, new_traffic_queue,
  add, report,
}
use ppanel_node.Traffic.Queue.Sums.{Direction, pending}
use ppanel_node.Traffic.Queue.Delivery.{new-IsGood, add-IsGood, delivered, report_balance}
use ppanel_node.Traffic.Queue.Ledger.{
  Event, run, total_added, total_delivered, run_conserves_traffic,
}

abbrev counters : TrafficCounter
counters =
    ("in|alice", record { up_counter = 5; down_counter = 6 })
    ∷ ("in|bob", record { up_counter = 1; down_counter = 1 })
    ∷ []

abbrev uids : Map String ℤ
uids = ("in|alice", pos 7) ∷ ("in|bob", pos 8) ∷ []

threshold_positive : lt64 10 0 ≡ false
unfolding lt64
threshold_positive = refl

abbrev client : NodeClient
client = record {
  api_host = "https://panel";
  secret_key = "key";
  node_type = "tuic";
  node_id = pos 1;
}

abbrev traffic : List UserTraffic
traffic =
    record { uid = pos 7; upload = 5; download = 6 }
    ∷ record { uid = pos 8; upload = 1; download = 1 }
    ∷ []

abbrev queue : TrafficQueue
queue = add new_traffic_queue client traffic

abbrev always : Outcome → TrafficDestination → Outcome
always o key = o

report_balance_example :
    pending Direction.downloads (key_of client) (pos 8) (report (always Outcome.acked) queue).0
      + delivered Direction.downloads
          (key_of client)
          (pos 8)
          (report (always Outcome.acked) queue).1
    ≡ pending Direction.downloads (key_of client) (pos 8) queue
report_balance_example =
    report_balance (always Outcome.acked) Direction.downloads (key_of client) (pos 8) queue
      (add-IsGood new_traffic_queue client traffic new-IsGood)

-- A report fails, more traffic comes in, and the next report is acknowledged.
abbrev events : List Event
events =
    Event.added client traffic
    ∷ Event.reported (always Outcome.failed)
    ∷ Event.added client traffic
    ∷ Event.reported (always Outcome.acked)
    ∷ []

run_conserves_traffic_example :
    (pending Direction.uploads (key_of client) (pos 7) (run events new_traffic_queue)
        + total_delivered Direction.uploads (key_of client) (pos 7) events new_traffic_queue)
      % 2 ^ 64
    ≡ total_added Direction.uploads (key_of client) (pos 7) events % 2 ^ 64
run_conserves_traffic_example =
    run_conserves_traffic Direction.uploads (key_of client) (pos 7) events
