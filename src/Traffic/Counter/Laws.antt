-- ===== src/Traffic/Counter/Laws.antt =====
-- A count goes to its own user and direction, and to no other.
use ppanel_node.Base.{ℕ, ◌≡◌, String, some, if◌then◌else◌, arith, Option-cases, inl, inr}
use ppanel_node.Base.Eq.{◌==◌, string_eq}
use ppanel_node.Base.Map.{lookup, lookup-insert, lookup-delete}
use ppanel_node.Traffic.Word.{add64}
use ppanel_node.Traffic.Counter.{
  TrafficStorage, TrafficCounter, zero_storage, storage_or_zero, get_counter, get_up_count,
  get_down_count, rx, tx, reset, remove,
}

module _ (c : TrafficCounter) (uuid j : String) (n : ℕ) where
  stored : TrafficStorage
  stored = storage_or_zero (lookup uuid c)

  lookup-tx : lookup j (tx c uuid n) ≡ (
      if uuid == j
      then some (record stored { up_counter = add64 stored.up_counter n })
      else lookup j c)
  unfolding tx stored
  lookup-tx = elim (Option-cases (lookup uuid c)) [
    | inl new ↦ rw (new, get_counter) (simp lookup-insert (ground arith))
    | inr (s, old) ↦ rw (old, get_counter) (simp lookup-insert)
  ]

  lookup-rx : lookup j (rx c uuid n) ≡ (
      if uuid == j
      then some (record stored { down_counter = add64 stored.down_counter n })
      else lookup j c)
  unfolding rx stored
  lookup-rx = elim (Option-cases (lookup uuid c)) [
    | inl new ↦ rw (new, get_counter) (simp lookup-insert (ground arith))
    | inr (s, old) ↦ rw (old, get_counter) (simp lookup-insert)
  ]

  -- `Tx` adds to the upload count of its user, and leaves the other counts as they were.
  pub tx_counts :
      (get_up_count (tx c uuid n) j
        ≡ (if uuid == j then add64 (get_up_count c j) n else get_up_count c j))
      × (get_down_count (tx c uuid n) j ≡ get_down_count c j)
  unfolding get_up_count get_down_count stored
  tx_counts = (
    ground (arith, lookup-tx, string_eq.beq_iff uuid j),
    ground (arith, lookup-tx, string_eq.beq_iff uuid j),
  )

  -- `Rx` adds to the download count of its user, and leaves the other counts as they were.
  pub rx_counts :
      (get_down_count (rx c uuid n) j
        ≡ (if uuid == j then add64 (get_down_count c j) n else get_down_count c j))
      × (get_up_count (rx c uuid n) j ≡ get_up_count c j)
  unfolding get_up_count get_down_count stored
  rx_counts = (
    ground (arith, lookup-rx, string_eq.beq_iff uuid j),
    ground (arith, lookup-rx, string_eq.beq_iff uuid j),
  )

  -- `Reset` and `Delete` set both counts of their user to zero, and no other.
  pub reset_counts :
      (get_up_count (reset c uuid) j ≡ (if uuid == j then 0 else get_up_count c j))
      × (get_down_count (reset c uuid) j ≡ (if uuid == j then 0 else get_down_count c j))
      × (get_up_count (remove c uuid) j ≡ (if uuid == j then 0 else get_up_count c j))
      × (get_down_count (remove c uuid) j ≡ (if uuid == j then 0 else get_down_count c j))
  unfolding get_up_count get_down_count reset remove
  reset_counts =
      let facts = lookup-insert uuid j zero_storage c in
      let same = string_eq.beq_iff uuid j in
      (
        ground (arith, facts, same),
        ground (arith, facts, same),
        ground (arith, lookup-delete uuid j c),
        ground (arith, lookup-delete uuid j c),
      )
