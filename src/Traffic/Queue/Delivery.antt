-- ===== src/Traffic/Queue/Delivery.antt =====
-- What `report` of node/traffic.go delivers, keeps, and reports as failed.
use ppanel_node.Base.{
  ℕ, ◌+◌, ◌≡◌, refl, ◌∙◌, none, some, List, [], ◌∷◌, if◌then◌else◌, arith, All, Bool-cases,
  Option-cases, inl, inr, ◌⊎◌,
}
use ppanel_node.Base.Eq.{◌==◌}
use ppanel_node.Base.Int.{ℤ, int_eq}
use ppanel_node.Base.Map.{Map, lookup, delete, lookup-delete}
use ppanel_node.Base.Map.Distinct.{
  Distinct, insert-Distinct, delete-Distinct, insert-All, delete-All, All-lookup, Agrees,
  Agrees-delete, Agrees-refl,
}
use ppanel_node.Panel.Types.{UserTraffic}
use ppanel_node.Traffic.Queue.{
  NodeClient, TrafficDestination, TrafficBatch, TrafficQueue, new_traffic_queue, Outcome,
  destination_eq, key_of, users_or_empty, values, merge, add, report_batches, report,
}
use ppanel_node.Traffic.Queue.Sums.{
  Direction, count, sum_of, counted, pending, IsKeyed, empty-IsKeyed, merge-IsKeyed,
}

-- The traffic of a user among the deliveries to one destination.
unfoldable pub delivered :
    Direction → TrafficDestination → ℤ → List (TrafficDestination × List UserTraffic) → ℕ
delivered dir key uid [] = 0
delivered dir key uid ((k, ts) ∷ sent) =
    let rest = delivered dir key uid sent in if k == key then sum_of dir uid ts + rest else rest

-- Each destination once, and in each batch each user once, under its own id.
pub record IsGood (q : TrafficQueue) : Type 0 where
  pub distinct : Distinct q
  pub keyed : All (λ (p : TrafficDestination × TrafficBatch). IsKeyed p.1.users) q

pub new-IsGood : IsGood []
new-IsGood = record { distinct = tt; keyed = tt }

users-IsKeyed :
    (key : TrafficDestination) (q : TrafficQueue)
    → IsGood q
    → IsKeyed (users_or_empty (lookup key q))
users-IsKeyed key q w = elim (Option-cases (lookup key q)) [
  | inl e ↦ rw e empty-IsKeyed
  | inr (b, e) ↦ rw e (All-lookup (λ k (b : TrafficBatch). IsKeyed b.users) q key b w.keyed e)
]

pub add-IsGood :
    (q : TrafficQueue) (client : NodeClient) (ts : List UserTraffic)
    → IsGood q
    → IsGood (add q client ts)
unfolding add
add-IsGood q client [] w = w
add-IsGood q client (t ∷ ts) w =
    let batch : TrafficBatch = record {
      client = client;
      users = merge (t ∷ ts) (users_or_empty (lookup (key_of client) q));
    } in
    record {
      distinct = insert-Distinct (key_of client) batch q w.distinct;
      keyed =
          insert-All (λ k (b : TrafficBatch). IsKeyed b.users) (key_of client) batch q
            (merge-IsKeyed (t ∷ ts) (users_or_empty (lookup (key_of client) q))
              (users-IsKeyed (key_of client) q w))
            w.keyed;
    }

delete-IsGood : (key : TrafficDestination) (q : TrafficQueue) → IsGood q → IsGood (delete key q)
delete-IsGood key q w = record {
  distinct = delete-Distinct key q w.distinct;
  keyed = delete-All (λ k (b : TrafficBatch). IsKeyed b.users) key q w.keyed;
}

Outcome-cases : (o : Outcome) → (o ≡ Outcome.cancelled) ⊎ (o ≡ Outcome.failed) ⊎ (o ≡ Outcome.acked)
Outcome-cases Outcome.cancelled = inl refl
Outcome-cases Outcome.failed = inr (inl refl)
Outcome-cases Outcome.acked = inr (inr refl)

report_batches-IsGood :
    (outcome : TrafficDestination → Outcome) (entries q : TrafficQueue)
    → IsGood q
    → IsGood (report_batches outcome entries q).0
unfolding report_batches
report_batches-IsGood outcome [] q w = w
report_batches-IsGood outcome ((key, batch) ∷ rest) q w = elim (Outcome-cases (outcome key)) [
  | inl e ↦ rw (e, report_batches) w
  | inr (inl e) ↦ rw (e, report_batches) (report_batches-IsGood outcome rest q w)
  | inr (inr e) ↦
      rw (e, report_batches)
        (report_batches-IsGood outcome rest (delete key q) (delete-IsGood key q w))
]

pub report-IsGood :
    (outcome : TrafficDestination → Outcome) (q : TrafficQueue)
    → IsGood q
    → IsGood (report outcome q).0
unfolding report
report-IsGood outcome q w = report_batches-IsGood outcome q q w

rest-IsKeyed :
    (k : ℤ) (v : UserTraffic) (users : Map ℤ UserTraffic) → IsKeyed ((k, v) ∷ users) → IsKeyed users
rest-IsKeyed k v users w = record { distinct = w.distinct.1; own_id = w.own_id.1 }

sum_of-missing :
    (dir : Direction) (uid : ℤ) (users : Map ℤ UserTraffic)
    → IsKeyed users
    → lookup uid users ≡ none
    → sum_of dir uid (values users) ≡ 0
unfolding sum_of lookup
sum_of-missing dir uid [] w missing = refl
sum_of-missing dir uid ((k, v) ∷ users) w missing =
    ground (arith, sum_of-missing dir uid users (rest-IsKeyed k v users w), w.own_id.0)

sum_of-values :
    (dir : Direction) (uid : ℤ) (users : Map ℤ UserTraffic)
    → IsKeyed users
    → sum_of dir uid (values users) ≡ counted dir uid users
unfolding sum_of lookup count
sum_of-values Direction.uploads uid [] w = refl
sum_of-values Direction.downloads uid [] w = refl
sum_of-values dir uid ((k, v) ∷ users) w =
    let rest = rest-IsKeyed k v users w in
    elim (Bool-cases (v.uid == uid)) [
      | inl hit ↦
          let at : k ≡ uid = ground (arith, w.own_id.0, int_eq.beq_iff v.uid uid) in
          let none_left : sum_of dir uid (values users) ≡ 0 =
            sum_of-missing dir uid users rest (ground (arith, w.distinct.0, at)) in
          let found : lookup uid ((k, v) ∷ users) ≡ some v =
            ground (arith, at, int_eq.beq_iff k uid) in
          rw hit (rw (none_left, found) (omega arith))
      | inr miss ↦
          let passed : lookup uid ((k, v) ∷ users) ≡ lookup uid users =
            ground (arith, w.own_id.0, int_eq.beq_iff k uid, int_eq.beq_iff v.uid uid) in
          rw miss (rw passed (sum_of-values dir uid users rest))
    ]

counted-empty : (dir : Direction) (uid : ℤ) → counted dir uid [] ≡ 0
unfolding lookup count
counted-empty Direction.uploads uid = refl
counted-empty Direction.downloads uid = refl

pub pending-new :
    (dir : Direction) (key : TrafficDestination) (uid : ℤ)
    → pending dir key uid new_traffic_queue ≡ 0
unfolding pending lookup count
pending-new Direction.uploads key uid = refl
pending-new Direction.downloads key uid = refl

-- A batch that is taken off the queue and sent.
sent_balance :
    (dir : Direction) (key : TrafficDestination) (uid : ℤ) (k : TrafficDestination)
    (batch : TrafficBatch) (q : TrafficQueue) (left sent : ℕ)
    → IsKeyed batch.users
    → lookup k q ≡ some batch
    → left + sent ≡ pending dir key uid (delete k q)
    → left + (if k == key then sum_of dir uid (values batch.users) + sent else sent)
      ≡ pending dir key uid q
unfolding pending
sent_balance dir key uid k batch q left sent w at later = elim (Bool-cases (k == key)) [
  | inl hit ↦
      let same : k ≡ key = (destination_eq.beq_iff k key).0 hit in
      let gone : lookup key (delete k q) ≡ none = rw (lookup-delete k key q, hit) refl in
      let here : lookup key q ≡ some batch = ground (arith, same, at) in
      let sum = sum_of-values dir uid batch.users w in
      let nothing : counted dir uid [] ≡ 0 = counted-empty dir uid in
      let later_zero : left + sent ≡ 0 = later ∙ rw gone nothing in
      rw (hit, here) (omega (arith, later_zero, sum))
  | inr miss ↦
      let kept : lookup key (delete k q) ≡ lookup key q = rw (lookup-delete k key q, miss) refl in
      rw miss (later ∙ rw kept refl)
]

-- What is left and what was delivered, after the batches `entries` of `q` were gone through.
report_batches_balance :
    (outcome : TrafficDestination → Outcome) (dir : Direction) (key : TrafficDestination) (uid : ℤ)
    (entries q : TrafficQueue)
    → IsGood entries
    → Agrees entries q
    → pending dir key uid (report_batches outcome entries q).0
        + delivered dir key uid (report_batches outcome entries q).1
      ≡ pending dir key uid q
unfolding report_batches delivered
report_batches_balance outcome dir key uid [] q w a = omega arith
report_batches_balance outcome dir key uid ((k, batch) ∷ rest) q w (at, a) =
    let rest_good : IsGood rest = record { distinct = w.distinct.1; keyed = w.keyed.1 } in
    elim (Outcome-cases (outcome k)) [
      | inl e ↦ rw (e, report_batches) (omega arith)
      | inr (inl e) ↦
          rw (e, report_batches) (report_batches_balance outcome dir key uid rest q rest_good a)
      | inr (inr e) ↦
          let later =
            report_batches_balance outcome dir key uid rest (delete k q) rest_good
              (Agrees-delete k rest q w.distinct.0 a) in
          rw (e, report_batches)
            (sent_balance dir key uid k batch q
              (pending dir key uid (report_batches outcome rest (delete k q)).0)
              (delivered dir key uid (report_batches outcome rest (delete k q)).1) w.keyed.0 at
              later)
    ]

-- For each user at each destination, what `report` leaves pending and what it delivered add up to
-- what was pending before, whatever the outcome at each destination; a panel that answers with an
-- error is counted as not delivered.
pub report_balance :
    (outcome : TrafficDestination → Outcome) (dir : Direction) (key : TrafficDestination) (uid : ℤ)
    (q : TrafficQueue)
    → IsGood q
    → pending dir key uid (report outcome q).0 + delivered dir key uid (report outcome q).1
      ≡ pending dir key uid q
unfolding report
report_balance outcome dir key uid q w =
    report_batches_balance outcome dir key uid q q w (Agrees-refl q w.distinct)
