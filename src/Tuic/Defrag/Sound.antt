-- ===== src/Tuic/Defrag/Sound.antt =====
-- The invariant of `udpDefragger`: `feed` never dereferences a nil message, and an item that it keeps
-- always waits for at least one more fragment.
use ppanel_node.Base.{
  ℕ, ◌+◌, ◌%◌, ◌≤◌, ◌<◌, ◌≡◌, ◌≢◌, refl, sym, ap, Option, none, some, List, arith, length,
  get_elem?, set, replicate, inl, inr, false, nat_beq, leb, Bool-cases, length-set,
  length-replicate, nat_beq_iff,
}
use mathlib.Core.Path.{subst, ◌∙◌}
use mathlib.Core.Option.{some_inj}
use ppanel_node.Base.Eq.{nat_eq}
use ppanel_node.Base.Map.{lookup, insert, delete, lookup-insert, lookup-delete, lookup-empty}
use ppanel_node.Tuic.Message.{UdpMessage}
use ppanel_node.Tuic.Defrag.{
  UdpDefragger, PacketItem, Fed, fed, feed, feed_item, fill_slot, start_item, complete, assemble,
  new_udp_defragger, is_filled,
}
use ppanel_node.Tuic.Defrag.Slots.{
  occupied, occupied-set, occupied-replicate, occupied-le-length, get_elem?-replicate,
  get_elem?-some, collect_full,
}

leb-false : (a b : ℕ) → leb a b ≡ false → b < a
leb-false a b h = ground arith

module _ {D : Type 0} where
  pub record IsWaiting (item : PacketItem D) : Type 0 where
    pub several : 2 ≤ length item.messages
    pub few : length item.messages < 256
    pub counted : item.count ≡ occupied item.messages
    pub lacking : item.count < length item.messages

  pub record IsSound (d : UdpDefragger D) : Type 0 where
    pub at_id : (id : ℕ) (item : PacketItem D) → lookup id d.packet_map ≡ some item → IsWaiting item

  pub new-IsSound : IsSound new_udp_defragger
  unfolding new_udp_defragger
  new-IsSound = record { at_id = λ id item e. cc (lookup-empty {V = PacketItem D} id) }

  insert-IsSound :
      (d : UdpDefragger D) (id : ℕ) (item : PacketItem D)
      → IsSound d
      → IsWaiting item
      → IsSound (record { packet_map = insert id item d.packet_map })
  insert-IsSound d id item s w = record { at_id = λ j other e. go j other e }
    where
      go :
          (j : ℕ) (other : PacketItem D)
          → lookup j (insert id item d.packet_map) ≡ some other
          → IsWaiting other
      go j other e = elim (Bool-cases (nat_beq id j)) [
        | inl hit ↦ subst IsWaiting (some_inj.0 (rw (lookup-insert, hit) at e)) w
        | inr miss ↦ s.at_id j other (rw (lookup-insert, miss) at e)
      ]

  delete-IsSound :
      (d : UdpDefragger D) (id : ℕ) (item : PacketItem D)
      → IsSound d
      → IsSound (record { packet_map = delete id (insert id item d.packet_map) })
  delete-IsSound d id item s = record { at_id = λ j other e. go j other e }
    where
      go :
          (j : ℕ) (other : PacketItem D)
          → lookup j (delete id (insert id item d.packet_map)) ≡ some other
          → IsWaiting other
      go j other e = elim (Bool-cases (nat_beq id j)) [
        | inl hit ↦ cc (rw (lookup-delete, hit) at e)
        | inr miss ↦ s.at_id j other (rw (lookup-insert, miss) at (rw (lookup-delete, miss) at e))
      ]

  -- A `feed` that returns, to a sound state.
  abbrev pub Feeds : Fed D → Type 0
  Feeds r = (d : UdpDefragger D) × (o : Option (UdpMessage D)) × (r ≡ fed d o) × IsSound d

  start_item-Feeds :
      (d : UdpDefragger D) (m : UdpMessage D)
      → IsSound d
      → 2 ≤ m.fragment_total
      → m.fragment_total < 256
      → m.fragment_id < m.fragment_total
      → Feeds (start_item d m)
  unfolding start_item
  start_item-Feeds d m s two fits inside =
      let blank : List (Option (UdpMessage D)) = replicate m.fragment_total none in
      let long : length (set blank m.fragment_id (some m)) ≡ m.fragment_total =
        length-set blank m.fragment_id (some m) ∙ length-replicate m.fragment_total none in
      let one : occupied (set blank m.fragment_id (some m)) ≡ 1 =
        occupied-set blank m.fragment_id m
          (get_elem?-replicate m.fragment_total m.fragment_id none inside)
        ∙ ap (λ n. n + 1) (occupied-replicate (UdpMessage D) m.fragment_total) in
      (
        _,
        none,
        refl,
        insert-IsSound d m.packet_id _ s (record {
          several = omega (arith, long);
          few = omega (arith, long);
          counted = omega (arith, one);
          lacking = omega (arith, long);
        }),
      )

  -- The item once the slot of `m` is filled.
  abbrev pub filled : PacketItem D → UdpMessage D → PacketItem D
  filled item m = record {
    messages = set item.messages m.fragment_id (some m);
    count = (item.count + 1) % 256;
  }

  module _ (item : PacketItem D) (m : UdpMessage D) (w : IsWaiting item)
      (vacant : get_elem? item.messages m.fragment_id ≡ some none) where
    pub filled-long : length (filled item m).messages ≡ length item.messages
    filled-long = length-set item.messages m.fragment_id (some m)

    pub filled-counted : (filled item m).count ≡ occupied (filled item m).messages
    filled-counted =
        omega
          (arith, w.counted, w.lacking, w.few, occupied-set item.messages m.fragment_id m vacant)

    pub filled-count : (filled item m).count ≡ item.count + 1
    filled-count = omega (arith, w.lacking, w.few)

    pub filled-IsWaiting :
        (filled item m).count ≢ length (filled item m).messages → IsWaiting (filled item m)
    filled-IsWaiting more = record {
      several = omega (arith, filled-long, w.several);
      few = omega (arith, filled-long, w.few);
      counted = filled-counted;
      lacking = omega (
        arith,
        filled-counted,
        more,
        occupied-le-length (set item.messages m.fragment_id (some m)),
      );
    }

  fill_slot-Feeds :
      (d : UdpDefragger D) (m : UdpMessage D) (item : PacketItem D)
      → IsSound d
      → IsWaiting item
      → get_elem? item.messages m.fragment_id ≡ some none
      → Feeds (fill_slot d m item)
  unfolding fill_slot complete
  fill_slot-Feeds d m item s w vacant =
      elim (Bool-cases (nat_beq (filled item m).count (length (filled item m).messages))) [
        | inl full ↦
            let (ms, e, _) =
              collect_full (filled item m).messages
                (sym (filled-counted item m w vacant) ∙ (nat_beq_iff _ _).0 full) in
            (
              record {
                packet_map = delete m.packet_id (insert m.packet_id (filled item m) d.packet_map);
              },
              assemble ms,
              rw full (rw e refl),
              delete-IsSound d m.packet_id (filled item m) s,
            )
        | inr more ↦ (
          record { packet_map = insert m.packet_id (filled item m) d.packet_map },
          none,
          rw more refl,
          insert-IsSound d m.packet_id (filled item m) s
              (filled-IsWaiting item m w vacant (λ e. cc (more, (nat_beq_iff _ _).1 e))),
        )
      ]

  vacant_slot :
      (slots : List (Option (UdpMessage D))) (i : ℕ)
      → i < length slots
      → is_filled (get_elem? slots i) ≡ false
      → get_elem? slots i ≡ some none
  vacant_slot slots i h e = go (get_elem? slots i) refl
    where
      go :
          (o : Option (Option (UdpMessage D)))
          → get_elem? slots i ≡ o
          → get_elem? slots i ≡ some none
      go none p = cc (p, (get_elem?-some slots i h).1)
      go (some none) p = p
      go (some (some m)) p = cc (ap is_filled p)

  feed_item-Feeds :
      (d : UdpDefragger D) (m : UdpMessage D) (o : Option (PacketItem D))
      → lookup m.packet_id d.packet_map ≡ o
      → IsSound d
      → 2 ≤ m.fragment_total
      → m.fragment_total < 256
      → m.fragment_id < m.fragment_total
      → Feeds (feed_item d m o)
  unfolding feed_item
  feed_item-Feeds d m none e s two fits inside = start_item-Feeds d m s two fits inside
  feed_item-Feeds d m (some item) e s two fits inside =
      elim (Bool-cases (nat_beq m.fragment_total (length item.messages))) [
        | inr other ↦ rw other (start_item-Feeds d m s two fits inside)
        | inl same ↦ elim (Bool-cases (is_filled (get_elem? item.messages m.fragment_id))) [
          | inl old ↦ rw (same, old) (d, none, refl, s)
          | inr new ↦
              rw (same, new)
                (fill_slot-Feeds d m item s (s.at_id m.packet_id item e) (
                  vacant_slot item.messages m.fragment_id (omega (arith, (nat_beq_iff _ _).0 same))
                    new))
        ]
      ]

  -- From a sound state `feed` returns, without a nil dereference, to a sound state, whatever the
  -- message that arrives.
  pub feed-IsSound :
      (d : UdpDefragger D) (m : UdpMessage D)
      → IsSound d
      → m.fragment_total < 256
      → (d' : UdpDefragger D) × (o : Option (UdpMessage D)) × (feed d m ≡ fed d' o) × IsSound d'
  unfolding feed
  feed-IsSound d m s fits = elim (Bool-cases (leb m.fragment_total 1)) [
    | inl whole ↦ rw whole (d, some m, refl, s)
    | inr part ↦ elim (Bool-cases (leb m.fragment_total m.fragment_id)) [
      | inl outside ↦ rw (part, outside) (d, none, refl, s)
      | inr inside ↦
          rw (part, inside)
            (feed_item-Feeds d m (lookup m.packet_id d.packet_map) refl s
              (leb-false m.fragment_total 1 part) fits
              (leb-false m.fragment_total m.fragment_id inside))
    ]
  ]
