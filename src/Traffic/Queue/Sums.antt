-- ===== src/Traffic/Queue/Sums.antt =====
-- What is pending for a user at a destination, and what `add` does to it.
use ppanel_node.Base.{
  ℕ, ◌+◌, ◌%◌, ◌^◌, ◌≡◌, refl, ap, ◌∙◌, some, List, [], ◌∷◌, if◌then◌else◌, arith, All, Bool-cases,
  inl, inr,
}
use ppanel_node.Base.Eq.{◌==◌}
use ppanel_node.Base.Int.{ℤ, int_eq}
use ppanel_node.Base.Map.{Map, lookup, insert, lookup-insert}
use ppanel_node.Base.Map.Distinct.{Distinct, insert-Distinct, insert-All}
use ppanel_node.Panel.Types.{UserTraffic}
use ppanel_node.Traffic.Word.{add64}
use ppanel_node.Traffic.Queue.{
  NodeClient, TrafficDestination, TrafficBatch, TrafficQueue, destination_eq, key_of, value_or_zero,
  users_or_empty, merge, add, add_batch,
}

pub data Direction : Type 0 where
  uploads downloads : Direction

unfoldable pub count : Direction → UserTraffic → ℕ
count uploads t = t.upload
count downloads t = t.download

-- The traffic of one user in a report, and in the users of a batch.
unfoldable pub sum_of : Direction → ℤ → List UserTraffic → ℕ
sum_of dir uid [] = 0
sum_of dir uid (t ∷ ts) =
    let rest = sum_of dir uid ts in if t.uid == uid then count dir t + rest else rest

abbrev pub counted : Direction → ℤ → Map ℤ UserTraffic → ℕ
counted dir uid users = count dir (value_or_zero uid (lookup uid users))

unfoldable pub pending : Direction → TrafficDestination → ℤ → TrafficQueue → ℕ
pending dir key uid q = counted dir uid (users_or_empty (lookup key q))

-- The users of a batch: each id once, and each value under its own id.
pub record IsKeyed (users : Map ℤ UserTraffic) : Type 0 where
  pub distinct : Distinct users
  pub own_id : All (λ (p : ℤ × UserTraffic). p.1.uid ≡ p.0) users

pub empty-IsKeyed : IsKeyed []
empty-IsKeyed = record { distinct = tt; own_id = tt }

abbrev pub added : UserTraffic → UserTraffic → UserTraffic
added value delta = record {
  uid = delta.uid;
  upload = add64 value.upload delta.upload;
  download = add64 value.download delta.download;
}

pub count-added :
    (dir : Direction) (value delta : UserTraffic)
    → count dir (added value delta) ≡ (count dir value + count dir delta) % 2 ^ 64
unfolding count add64
count-added uploads value delta = refl
count-added downloads value delta = refl

pub merge-IsKeyed :
    (ts : List UserTraffic) (users : Map ℤ UserTraffic) → IsKeyed users → IsKeyed (merge ts users)
unfolding merge
merge-IsKeyed [] users w = w
merge-IsKeyed (t ∷ ts) users w =
    let v = added (value_or_zero t.uid (lookup t.uid users)) t in
    merge-IsKeyed ts (insert t.uid v users) (record {
      distinct = insert-Distinct t.uid v users w.distinct;
      own_id = insert-All (λ k (u : UserTraffic). u.uid ≡ k) t.uid v users refl w.own_id;
    })

counted-merge :
    (dir : Direction) (uid : ℤ) (ts : List UserTraffic) (users : Map ℤ UserTraffic)
    → counted dir uid (merge ts users) % 2 ^ 64
      ≡ (counted dir uid users + sum_of dir uid ts) % 2 ^ 64
unfolding merge sum_of
counted-merge dir uid [] users = omega arith
counted-merge dir uid (t ∷ ts) users =
    let v = added (value_or_zero t.uid (lookup t.uid users)) t in
    let step = counted-merge dir uid ts (insert t.uid v users) in
    elim (Bool-cases (t.uid == uid)) [
      | inl hit ↦
          let found : lookup uid (insert t.uid v users) ≡ some v =
            rw (lookup-insert t.uid uid v users, hit) refl in
          let here : counted dir uid (insert t.uid v users)
              ≡ (counted dir uid users + count dir t) % 2 ^ 64 =
            ap (λ o. count dir (value_or_zero uid o)) found
            ∙ count-added dir (value_or_zero t.uid (lookup t.uid users)) t
            ∙ ap (λ (k : ℤ). (count dir (value_or_zero k (lookup k users)) + count dir t) % 2 ^ 64)
                ((int_eq.beq_iff t.uid uid).0 hit) in
          rw hit (omega (arith, step, here))
      | inr miss ↦
          let found : lookup uid (insert t.uid v users) ≡ lookup uid users =
            rw (lookup-insert t.uid uid v users, miss) refl in
          let here : counted dir uid (insert t.uid v users) ≡ counted dir uid users =
            ap (λ o. count dir (value_or_zero uid o)) found in
          rw miss (omega (arith, step, here))
    ]

pending-add_batch :
    (dir : Direction) (key : TrafficDestination) (uid : ℤ) (q : TrafficQueue) (client : NodeClient)
    (ts : List UserTraffic)
    → pending dir key uid (add_batch q client ts) % 2 ^ 64
      ≡ (pending dir key uid q + (if key_of client == key then sum_of dir uid ts else 0)) % 2 ^ 64
unfolding pending
pending-add_batch dir key uid q client ts =
    let batch : TrafficBatch = record {
      client = client;
      users = merge ts (users_or_empty (lookup (key_of client) q));
    } in
    elim (Bool-cases (key_of client == key)) [
      | inl hit ↦ rw (lookup-insert (key_of client) key batch q) (
          rw hit (
            counted-merge dir uid ts (users_or_empty (lookup (key_of client) q))
            ∙ ap
                (λ (k : TrafficDestination).
                  (counted dir uid (users_or_empty (lookup k q)) + sum_of dir uid ts) % 2 ^ 64)
                ((destination_eq.beq_iff (key_of client) key).0 hit)))
      | inr miss ↦ rw (lookup-insert (key_of client) key batch q) (rw miss (omega arith))
    ]

-- `add` raises what is pending for each user at the destination of its client by the traffic of
-- that user, wrapping at 64 bits, and changes nothing pending elsewhere.
pub pending-add :
    (dir : Direction) (key : TrafficDestination) (uid : ℤ) (q : TrafficQueue) (client : NodeClient)
    (ts : List UserTraffic)
    → pending dir key uid (add q client ts) % 2 ^ 64
      ≡ (pending dir key uid q + (if key_of client == key then sum_of dir uid ts else 0)) % 2 ^ 64
unfolding add
pending-add dir key uid q client [] = unfold sum_of in ground arith
pending-add dir key uid q client (t ∷ ts) = pending-add_batch dir key uid q client (t ∷ ts)
