-- ===== src/Traffic/Queue.antt =====
-- node/traffic.go: the queue of traffic that the panel has not acknowledged. Its mutex makes `add`
-- and `report` one step each.
pub mod Sums
pub mod Delivery
pub mod Ledger
pub mod Total
use ppanel_node.Base.{
  ℕ, ◌≡◌, ◌↔◌, String, Option, none, some, List, [], ◌∷◌, Bool, true, false, ◌&&◌, if◌then◌else◌,
  arith,
}
use ppanel_node.Base.Eq.{Eq, ◌==◌, string_eq}
use ppanel_node.Base.Int.{ℤ, int_eq}
use ppanel_node.Base.Map.{Map, lookup, insert, delete}
use ppanel_node.Panel.Types.{UserTraffic}
use ppanel_node.Traffic.Word.{add64}

-- The fields of `panel.NodeClient` that the queue reads.
pub record NodeClient : Type 0 where
  pub api_host : String
  pub secret_key : String
  pub node_type : String
  pub node_id : ℤ

pub record TrafficDestination : Type 0 where
  pub host : String
  pub secret : String
  pub protocol : String
  pub id : ℤ

destination_beq : TrafficDestination → TrafficDestination → Bool
destination_beq a b =
    (a.host == b.host && a.secret == b.secret) && (a.protocol == b.protocol && a.id == b.id)

destination_beq_iff : (a b : TrafficDestination) → (destination_beq a b ≡ true) ↔ (a ≡ b)
unfolding destination_beq
destination_beq_iff a b = ground (
  arith,
  string_eq.beq_iff a.host b.host,
  string_eq.beq_iff a.secret b.secret,
  string_eq.beq_iff a.protocol b.protocol,
  int_eq.beq_iff a.id b.id,
)

instance pub destination_eq : Eq TrafficDestination
destination_eq = record { beq = destination_beq; beq_iff = destination_beq_iff }

pub record TrafficBatch : Type 0 where
  pub client : NodeClient
  pub users : Map ℤ UserTraffic

abbrev pub TrafficQueue : Type 0
TrafficQueue = Map TrafficDestination TrafficBatch

abbrev pub new_traffic_queue : TrafficQueue
new_traffic_queue = []

abbrev pub key_of : NodeClient → TrafficDestination
key_of c = record {
  host = c.api_host;
  secret = c.secret_key;
  protocol = c.node_type;
  id = c.node_id;
}

-- `batch.users[uid]`, the zero value where it is missing.
abbrev pub value_or_zero : ℤ → Option UserTraffic → UserTraffic
value_or_zero uid none = record { uid = uid; upload = 0; download = 0 }
value_or_zero uid (some v) = v

unfoldable pub merge : List UserTraffic → Map ℤ UserTraffic → Map ℤ UserTraffic
merge [] users = users
merge (delta ∷ traffic) users =
    let value = value_or_zero delta.uid (lookup delta.uid users) in
    merge traffic (
      insert delta.uid
        (record {
          uid = delta.uid;
          upload = add64 value.upload delta.upload;
          download = add64 value.download delta.download;
        })
        users)

abbrev pub users_or_empty : Option TrafficBatch → Map ℤ UserTraffic
users_or_empty none = []
users_or_empty (some batch) = batch.users

abbrev pub add_batch : TrafficQueue → NodeClient → List UserTraffic → TrafficQueue
add_batch q client traffic =
    insert (key_of client)
      (record {
        client = client;
        users = merge traffic (users_or_empty (lookup (key_of client) q));
      })
      q

unfoldable pub add : TrafficQueue → NodeClient → List UserTraffic → TrafficQueue
unfolding merge
add q client [] = q
add q client (t ∷ ts) = add_batch q client (t ∷ ts)

abbrev pub values : Map ℤ UserTraffic → List UserTraffic
values [] = []
values ((uid, v) ∷ users) = v ∷ values users

-- What the environment does at one batch: the context is over, the panel acknowledges, or the
-- request fails (perhaps after the panel has counted it).
pub data Outcome : Type 0 where
  cancelled acked failed : Outcome

-- `report`: the outcome at each destination decides; the batches that were delivered, in order, and
-- whether an error is returned.
unfoldable pub report_batches :
    (TrafficDestination → Outcome)
    → TrafficQueue
    → TrafficQueue
    → TrafficQueue × List (TrafficDestination × List UserTraffic) × Bool
report_batches outcome [] q = (q, [], false)
report_batches outcome ((key, batch) ∷ rest) q =
    let after_ack = report_batches outcome rest (delete key q) in
    let after_failure = report_batches outcome rest q in
    elim (outcome key) [
      | Outcome.cancelled ↦ (q, [], true)
      | Outcome.failed ↦ (after_failure.0, after_failure.1, true)
      | Outcome.acked ↦ (after_ack.0, (key, values batch.users) ∷ after_ack.1, after_ack.2)
    ]

unfoldable pub report :
    (TrafficDestination → Outcome)
    → TrafficQueue
    → TrafficQueue × List (TrafficDestination × List UserTraffic) × Bool
unfolding report_batches
report outcome q = report_batches outcome q q
