-- ===== src/Traffic/Queue/Total.antt =====
-- node/traffic.go: what is pending at a destination over all users.
use ppanel_node.Base.{ℕ, ◌+◌, ◌%◌, ◌^◌, ◌≡◌, refl, none, List, [], ◌∷◌, arith, Bool-cases, inl, inr}
use ppanel_node.Base.Eq.{◌==◌}
use ppanel_node.Base.Int.{ℤ, int_eq}
use ppanel_node.Base.Map.{Map, lookup, insert, lookup-insert_self}
use ppanel_node.Panel.Types.{UserTraffic}
use ppanel_node.Traffic.Word.{add64}
use ppanel_node.Traffic.Slice.Laws.{report_sum}
use ppanel_node.Traffic.Queue.{
  NodeClient, TrafficDestination, TrafficBatch, TrafficQueue, destination_eq, key_of, value_or_zero,
  users_or_empty, merge, add,
}
use ppanel_node.Traffic.Queue.Sums.{Direction, count, counted, added, count-added}

unfoldable pub total : Direction → Map ℤ UserTraffic → ℕ
total dir [] = 0
total dir ((uid, t) ∷ users) = count dir t + total dir users

unfoldable pub sum_all : Direction → List UserTraffic → ℕ
sum_all dir [] = 0
sum_all dir (t ∷ ts) = count dir t + sum_all dir ts

-- All traffic that is pending at a destination.
unfoldable pub pending_total : Direction → TrafficDestination → TrafficQueue → ℕ
unfolding total
pending_total dir key q = total dir (users_or_empty (lookup key q))

zero_count : (dir : Direction) (uid : ℤ) → count dir (value_or_zero uid none) ≡ 0
unfolding count
zero_count Direction.uploads uid = refl
zero_count Direction.downloads uid = refl

total-insert :
    (dir : Direction) (uid : ℤ) (v : UserTraffic) (users : Map ℤ UserTraffic)
    → total dir (insert uid v users) + counted dir uid users ≡ total dir users + count dir v
unfolding total insert lookup
total-insert dir uid v [] = omega (arith, zero_count dir uid)
total-insert dir uid v ((k, t) ∷ users) = elim (Bool-cases (k == uid)) [
  | inl hit ↦ rw hit (omega arith)
  | inr miss ↦ rw miss (omega (arith, total-insert dir uid v users))
]

total-merge :
    (dir : Direction) (ts : List UserTraffic) (users : Map ℤ UserTraffic)
    → total dir (merge ts users) % 2 ^ 64 ≡ (total dir users + sum_all dir ts) % 2 ^ 64
unfolding merge sum_all
total-merge dir [] users = omega arith
total-merge dir (t ∷ ts) users =
    let old = value_or_zero t.uid (lookup t.uid users) in
    omega (
      arith,
      total-merge dir ts (insert t.uid (added old t) users),
      total-insert dir t.uid (added old t) users,
      count-added dir old t,
    )

report_sum-sum_all :
    (dir : Direction) (ts : List UserTraffic) → report_sum (count dir) ts ≡ sum_all dir ts % 2 ^ 64
unfolding report_sum sum_all add64
report_sum-sum_all dir [] = omega arith
report_sum-sum_all dir (t ∷ ts) = omega (arith, report_sum-sum_all dir ts)

pub pending_total-add :
    (dir : Direction) (q : TrafficQueue) (client : NodeClient) (ts : List UserTraffic)
    → pending_total dir (key_of client) (add q client ts) % 2 ^ 64
      ≡ (pending_total dir (key_of client) q + report_sum (count dir) ts) % 2 ^ 64
unfolding pending_total add report_sum
pending_total-add dir q client [] = omega arith
pending_total-add dir q client (t ∷ ts) =
    let batch : TrafficBatch = record {
      client = client;
      users = merge (t ∷ ts) (users_or_empty (lookup (key_of client) q));
    } in
    rw (lookup-insert_self (key_of client) batch q) (
      omega (
        arith,
        total-merge dir (t ∷ ts) (users_or_empty (lookup (key_of client) q)),
        report_sum-sum_all dir (t ∷ ts),
      ))
