-- ===== src/Tuic/Transfer.antt =====
-- `fragUDPMessage` on one side and `udpDefragger` on the other: what is sent is what arrives.
use ppanel_node.Base.{
  ℕ, zero, suc, ◌+◌, ◌-◌, ◌*◌, ◌%◌, ◌≤◌, ◌<◌, ◌≡◌, refl, ap, ◌∙◌, none, some, List, [], ◌∷◌, ◌++◌,
  map, arith, length, get_or, replicate, false, ltb, nat_beq, if◌then◌else◌,
}
use ppanel_node.Base.Map.{lookup}
use ppanel_node.Base.Eq.{nat_eq}
use ppanel_node.Tuic.Net.{XNet}
use ppanel_node.Tuic.Message.{UdpMessage, header_size}
use ppanel_node.Tuic.Fragment.{pieces, number, frag_udp_message}
use ppanel_node.Tuic.Fragment.Laws.{length-number, length-pieces, concat-frag_udp_message}
use ppanel_node.Tuic.Defrag.{UdpDefragger, assemble, concat_data}
use ppanel_node.Tuic.Defrag.Reassembly.{feed_all, feed_all_order, tabulate, Todo}

two_rounds : (n mtu len : ℕ) → len ≤ n * mtu → mtu < len → 2 ≤ n
two_rounds zero mtu len h l = absurd (grind arith)
two_rounds (suc zero) mtu len h l = absurd (grind arith)
two_rounds (suc (suc n)) mtu len h l = omega arith

-- The messages at the given indices.
abbrev pub pick : {D : Type 0} → List (UdpMessage D) → UdpMessage D → List ℕ → List (UdpMessage D)
pick ms default order = map (λ i. get_or ms i default) order

get_or-tabulate :
    {D : Type 0} (f : ℕ → UdpMessage D) (i k t : ℕ) (default : UdpMessage D)
    → t < k
    → get_or (tabulate f i k) t default ≡ f (i + t)
unfolding tabulate
get_or-tabulate f i zero t default h = absurd (omega arith)
get_or-tabulate f i (suc k) zero default h = ap f (omega arith)
get_or-tabulate f i (suc k) (suc t) default h =
    get_or-tabulate f (suc i) k t default (omega arith) ∙ ap f (omega arith)

pick-tabulate :
    {D : Type 0} (f : ℕ → UdpMessage D) (n : ℕ) (seen order : List ℕ) (default : UdpMessage D)
    → Todo n seen order
    → pick (tabulate f 0 n) default order ≡ map f order
pick-tabulate f n seen [] default todo = refl
pick-tabulate f n seen (i ∷ order) default (h, new, todo) =
    let at : 0 + i ≡ i = omega arith in
    cc
      (get_or-tabulate f 0 n i default h ∙ ap f at, pick-tabulate f n (i ∷ seen) order default todo)

assemble_whole :
    {D : Type 0} (ms : List (UdpMessage D)) (m : UdpMessage D) (whole : List ℕ)
    → concat_data (m ∷ ms) ≡ whole
    → 0 < length whole
    → assemble (m ∷ ms) ≡ some (record m { data_bytes = whole })
unfolding assemble
assemble_whole ms m whole e pos =
    let some_data : nat_beq (length (concat_data (m ∷ ms))) 0 ≡ false = rw e (ground arith) in
    rw some_data (rw e refl)

module _ (x : XNet) (m : UdpMessage x.Destination) where
  -- The fragment of index `i` out of `total`, over the pieces.
  fragment : ℕ → List (List ℕ) → ℕ → UdpMessage x.Destination
  fragment total parts i = record m {
    fragment_total = total % 256;
    fragment_id = i % 256;
    destination = if ltb 0 i then x.zero_destination else m.destination;
    data_bytes = get_or parts i [];
  }

  number-tabulate :
      (total i : ℕ) (parts ps : List (List ℕ))
      → ((t : ℕ) → t < length ps → get_or parts (i + t) [] ≡ get_or ps t [])
      → number x m total i ps ≡ tabulate (fragment total parts) i (length ps)
  unfolding number tabulate fragment
  number-tabulate total i parts [] h = refl
  number-tabulate total i parts (p ∷ ps) h =
      let at : i + 0 ≡ i = omega arith in
      let first : get_or parts i [] ≡ p = rw at at (h 0 (omega arith)) in
      let rest = number-tabulate total (suc i) parts ps (λ t l.
        let shift : suc i + t ≡ i + suc t = omega arith in rw shift (h (suc t) (omega arith))) in
      cc (first, rest)

  module _ (size : ℕ) (roomy : header_size x m < size)
      (long : size - header_size x m < length m.data_bytes) where
    parts : List (List ℕ)
    parts = pieces (length m.data_bytes) (size - header_size x m) m.data_bytes

    several : 2 ≤ length parts
    unfolding parts
    several =
        let mtu = size - header_size x m in
        let bound =
          length-pieces (length m.data_bytes) mtu m.data_bytes (omega arith) (omega arith) in
        two_rounds (length (pieces (length m.data_bytes) mtu m.data_bytes)) mtu
          (length m.data_bytes) bound.0 long

    split : frag_udp_message x m size ≡ number x m (length parts) 0 parts
    unfolding frag_udp_message parts
    split = ground arith

    split-tabulate :
        frag_udp_message x m size ≡ tabulate (fragment (length parts) parts) 0 (length parts)
    split-tabulate =
        split
        ∙ number-tabulate (length parts) 0 parts parts
            (λ t l. let at : 0 + t ≡ t = omega arith in rw at refl)

    count_parts : length (frag_udp_message x m size) ≡ length parts
    count_parts = rw split (length-number x m (length parts) 0 parts)

    -- What arrives: the message as it was, marked as the first of its fragments.
    abbrev pub arrived : UdpMessage x.Destination
    arrived = record m { fragment_total = length (frag_udp_message x m size); fragment_id = 0 }

    whole :
        (n : ℕ)
        → n ≡ length parts
        → concat_data (tabulate (fragment (length parts) parts) 0 n) ≡ m.data_bytes
    whole n e =
        ap (λ (k : ℕ). concat_data (tabulate (fragment (length parts) parts) 0 k)) e
        ∙ rw (← split-tabulate) (concat-frag_udp_message x m size)

    assembled :
        (n : ℕ)
        → n ≡ length parts
        → n < 256
        → assemble (tabulate (fragment (length parts) parts) 0 n) ≡ some arrived
    unfolding tabulate fragment
    assembled zero e few = absurd (omega (arith, several))
    assembled (suc k) e few =
        let f = fragment (length parts) parts in
        assemble_whole (tabulate f 1 k) (f 0) m.data_bytes (whole (suc k) e) (omega arith)
        ∙ ground (arith, count_parts)

    -- The fragments of a message that needs 2 to 255 of them, fed in any order to a defragger that
    -- holds nothing under its packet id, give nil until the last, and with the last the message
    -- with its data, its destination and its ids; nothing stays behind.
    pub frag_udp_message-reassembles :
        (order : List ℕ) (d : UdpDefragger x.Destination)
        → length (frag_udp_message x m size) < 256
        → lookup m.packet_id d.packet_map ≡ none
        → Todo (length (frag_udp_message x m size)) [] order
        → length order ≡ length (frag_udp_message x m size)
        → (d' : UdpDefragger x.Destination) × (feed_all d (pick (frag_udp_message x m size) m order)
            ≡ some
                (d', replicate (length (frag_udp_message x m size) - 1) none ++ some arrived ∷ []))
          × (lookup m.packet_id d'.packet_map ≡ none)
    unfolding fragment
    frag_udp_message-reassembles order d few none_yet todo len =
        let n = length parts in
        let f = fragment n parts in
        let small : n < 256 = rw count_parts at few in
        let todo' : Todo n [] order = rw count_parts at todo in
        let (d', run, gone) =
          feed_all_order f m.packet_id n several small (λ i h. refl) (λ i h. omega arith)
            (λ i h. omega arith) order d none_yet todo' (rw count_parts at len) in
        let picked : pick (frag_udp_message x m size) m order ≡ map f order =
          ap (λ (fs : List (UdpMessage x.Destination)). pick fs m order) split-tabulate
          ∙ pick-tabulate f n [] order m todo' in
        (
          d',
          ap (feed_all d) picked
              ∙ run
              ∙ ap (λ r. some (d', r)) (cc (count_parts, assembled n refl small)),
          gone,
        )
