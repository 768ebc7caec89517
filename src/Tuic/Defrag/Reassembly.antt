-- ===== src/Tuic/Defrag/Reassembly.antt =====
-- Fragments of one message, fed in any order, come back as the whole message with the last of them.
use ppanel_node.Base.{
  ℕ, zero, suc, ◌+◌, ◌-◌, ◌≤◌, ◌<◌, ◌≡◌, refl, ap, ◌∙◌, Option, none, some, List, [], ◌∷◌, ◌++◌,
  map, arith, length, get_elem?, set, replicate, inl, inr, Bool, false, ◌||◌, nat_beq,
  if◌then◌else◌, Bool-cases,
}
use ppanel_node.Base.Eq.{nat_eq}
use ppanel_node.Base.Map.{lookup, insert, delete, lookup-insert_self, lookup-delete_self}
use ppanel_node.Tuic.Message.{UdpMessage}
use ppanel_node.Tuic.Defrag.{
  UdpDefragger, PacketItem, panic, fed, feed, feed_item, fill_slot, start_item, complete, collect,
  assemble,
}
use ppanel_node.Tuic.Defrag.Slots.{occupied, occupied-set, occupied-replicate, occupied-le-length}

-- What a sequence of messages makes `feed` return, one result for each.
unfoldable pub feed_all :
    {D : Type 0}
    → UdpDefragger D
    → List (UdpMessage D)
    → Option (UdpDefragger D × List (Option (UdpMessage D)))
feed_all d [] = some (d, [])
feed_all d (m ∷ ms) = elim (feed d m) [
  | panic ↦ none
  | fed d' o ↦ elim (feed_all d' ms) [ none ↦ none | some (e, os) ↦ some (e, o ∷ os) ]
]

pub feed_all-cons :
    {D : Type 0} (d : UdpDefragger D) (m : UdpMessage D) (ms : List (UdpMessage D))
    (d' e : UdpDefragger D) (o : Option (UdpMessage D)) (os : List (Option (UdpMessage D)))
    → feed d m ≡ fed d' o
    → feed_all d' ms ≡ some (e, os)
    → feed_all d (m ∷ ms) ≡ some (e, o ∷ os)
unfolding feed_all
feed_all-cons d m ms d' e o os p q = ground arith

pub feed_all-nil : {D : Type 0} (d : UdpDefragger D) → feed_all d [] ≡ some (d, [])
unfolding feed_all
feed_all-nil d = refl

unfoldable pub mem : List ℕ → ℕ → Bool
mem [] j = false
mem (i ∷ is) j = nat_beq j i || mem is j

-- The indices of `todo` are below `n`, differ from one another and from those seen.
abbrev pub Todo : ℕ → List ℕ → List ℕ → Type 0
Todo n seen [] = Unit {0}
Todo n seen (i ∷ is) = (i < n) × (mem seen i ≡ false) × Todo n (i ∷ seen) is

module _ {D : Type 0} (f : ℕ → UdpMessage D) where
  -- The fragments from index `i` on, `k` of them.
  unfoldable pub tabulate : ℕ → ℕ → List (UdpMessage D)
  tabulate i zero = []
  tabulate i (suc k) = f i ∷ tabulate (suc i) k

  slots_of : (ℕ → Bool) → ℕ → ℕ → List (Option (UdpMessage D))
  slots_of has i zero = []
  slots_of has i (suc k) = (if has i then some (f i) else none) ∷ slots_of has (suc i) k

  length-slots_of : (has : ℕ → Bool) (i k : ℕ) → length (slots_of has i k) ≡ k
  unfolding slots_of
  length-slots_of has i zero = refl
  length-slots_of has i (suc k) = ap suc (length-slots_of has (suc i) k)

  slots_of-congr :
      (has has' : ℕ → Bool) (i k : ℕ)
      → ((j : ℕ) → i ≤ j → has j ≡ has' j)
      → slots_of has i k ≡ slots_of has' i k
  unfolding slots_of
  slots_of-congr has has' i zero h = refl
  slots_of-congr has has' i (suc k) h =
      cc (h i (omega arith), slots_of-congr has has' (suc i) k (λ j l. h j (omega arith)))

  get_elem?-slots_of :
      (has : ℕ → Bool) (i k t : ℕ)
      → t < k
      → has (i + t) ≡ false
      → get_elem? (slots_of has i k) t ≡ some none
  unfolding slots_of
  get_elem?-slots_of has i zero t h e = absurd (omega arith)
  get_elem?-slots_of has i (suc k) zero h e =
      let at : i + 0 ≡ i = omega arith in rw (rw at at e) refl
  get_elem?-slots_of has i (suc k) (suc t) h e =
      let at : i + suc t ≡ suc i + t = omega arith in
      get_elem?-slots_of has (suc i) k t (omega arith) (rw at at e)

  set-slots_of :
      (has : ℕ → Bool) (i k t q : ℕ)
      → t < k
      → i + t ≡ q
      → set (slots_of has i k) t (some (f q)) ≡ slots_of (λ j. nat_beq j q || has j) i k
  unfolding slots_of
  set-slots_of has i zero t q h at = absurd (omega arith)
  set-slots_of has i (suc k) zero q h at =
      let rest : slots_of has (suc i) k ≡ slots_of (λ j. nat_beq j q || has j) (suc i) k =
        slots_of-congr has (λ j. nat_beq j q || has j) (suc i) k (λ j l. ground arith) in
      ground (arith, rest)
  set-slots_of has i (suc k) (suc t) q h at =
      let off : nat_beq i q ≡ false = ground arith in
      rw off (
        ap (λ r. (if has i then some (f i) else none) ∷ r)
          (set-slots_of has (suc i) k t q (omega arith) (omega arith)))

  slots_of-none : (i k : ℕ) → slots_of (λ j. false) i k ≡ replicate k none
  unfolding slots_of
  slots_of-none i zero = refl
  slots_of-none i (suc k) = ap (λ r. none ∷ r) (slots_of-none (suc i) k)

  collect-slots_of :
      (has : ℕ → Bool) (i k : ℕ)
      → occupied (slots_of has i k) ≡ k
      → collect (slots_of has i k) ≡ some (tabulate i k)
  unfolding slots_of occupied collect tabulate
  collect-slots_of has i zero h = refl
  collect-slots_of has i (suc k) h = elim (Bool-cases (has i)) [
    | inl e ↦
        let all : occupied (slots_of has (suc i) k) ≡ k = ground arith in
        rw e (rw (collect-slots_of has (suc i) k all) refl)
    | inr e ↦
        absurd (
          ground
            (arith, occupied-le-length (slots_of has (suc i) k), length-slots_of has (suc i) k))
  ]

module _ {D : Type 0} (f : ℕ → UdpMessage D) (p n : ℕ) (two : 2 ≤ n) (few : n < 256)
    (of_packet : (i : ℕ) → i < n → (f i).packet_id ≡ p)
    (of_total : (i : ℕ) → i < n → (f i).fragment_total ≡ n)
    (of_index : (i : ℕ) → i < n → (f i).fragment_id ≡ i) where
  item_of : List ℕ → PacketItem D
  item_of seen = record { messages = slots_of f (mem seen) 0 n; count = length seen }

  -- The state when the fragments of `seen` have arrived, the last of them first.
  Held : List ℕ → UdpDefragger D → Type 0
  Held [] d = lookup p d.packet_map ≡ none
  Held (i ∷ seen) d = lookup p d.packet_map ≡ some (item_of (i ∷ seen))

  Fresh : List ℕ → Type 0
  Fresh [] = Unit {0}
  Fresh (i ∷ seen) = (i < n) × (mem seen i ≡ false) × Fresh seen

  slots-nil : slots_of f (mem []) 0 n ≡ replicate n none
  unfolding mem
  slots-nil = slots_of-none f 0 n

  slots-cons :
      (i : ℕ) (seen : List ℕ)
      → i < n
      → set (slots_of f (mem seen) 0 n) i (some (f i)) ≡ slots_of f (mem (i ∷ seen)) 0 n
  unfolding mem
  slots-cons i seen h = set-slots_of f (mem seen) 0 n i i h (omega arith)

  vacant :
      (i : ℕ) (seen : List ℕ)
      → i < n
      → mem seen i ≡ false
      → get_elem? (slots_of f (mem seen) 0 n) i ≡ some none
  vacant i seen h new =
      let at : 0 + i ≡ i = omega arith in get_elem?-slots_of f (mem seen) 0 n i h (rw at new)

  occupied-seen : (seen : List ℕ) → Fresh seen → occupied (slots_of f (mem seen) 0 n) ≡ length seen
  unfolding Fresh
  occupied-seen [] fresh = unfold mem in (rw slots_of-none (occupied-replicate (UdpMessage D) n))
  occupied-seen (i ∷ seen) (h, new, fresh) = rw (← slots-cons i seen h) (
      omega (
        arith,
        occupied-set (slots_of f (mem seen) 0 n) i (f i) (vacant i seen h new),
        occupied-seen seen fresh,
      ))

  feed-feed_item :
      (d : UdpDefragger D) (i : ℕ) (o : Option (PacketItem D))
      → i < n
      → lookup p d.packet_map ≡ o
      → feed d (f i) ≡ feed_item d (f i) o
  unfolding feed
  feed-feed_item d i o h e = ground (arith, of_packet i, of_total i, of_index i)

  start-Held :
      (d : UdpDefragger D) (i : ℕ)
      → Held [] d
      → i < n
      → (d' : UdpDefragger D) × (feed d (f i) ≡ fed d' none) × Held (i ∷ []) d'
  unfolding Held feed_item start_item item_of
  start-Held d i held inside = (
    record { packet_map = insert p (item_of (i ∷ [])) d.packet_map },
    feed-feed_item d i none inside held
        ∙ ground (arith, of_packet i, of_total i, of_index i, slots-cons i [] inside, slots-nil),
    lookup-insert_self p _ d.packet_map,
  )

  module _ (d : UdpDefragger D) (i j : ℕ) (seen : List ℕ) (held : Held (j ∷ seen) d) (h : i < n)
      (new : mem (j ∷ seen) i ≡ false) (fresh : Fresh (j ∷ seen)) where
    feed-fill_slot : feed d (f i) ≡ fill_slot d (f i) (item_of (j ∷ seen))
    unfolding Held feed_item item_of
    feed-fill_slot =
        feed-feed_item d i _ h held
        ∙ ground (
          arith,
          of_total i,
          of_index i,
          length-slots_of f (mem (j ∷ seen)) 0 n,
          vacant i (j ∷ seen) h new,
        )

    next-Held :
        length (i ∷ j ∷ seen) < n
        → (d' : UdpDefragger D) × (feed d (f i) ≡ fed d' none) × Held (i ∷ j ∷ seen) d'
    unfolding Held fill_slot item_of
    next-Held more = (
      record { packet_map = insert p (item_of (i ∷ j ∷ seen)) d.packet_map },
      feed-fill_slot
          ∙ ground (
            arith,
            of_packet i,
            of_index i,
            slots-cons i (j ∷ seen) h,
            length-slots_of f (mem (i ∷ j ∷ seen)) 0 n,
          ),
      lookup-insert_self p _ d.packet_map,
    )

    last_fragment :
        length (i ∷ j ∷ seen) ≡ n
        → (d' : UdpDefragger D) × (feed d (f i) ≡ fed d' (assemble (tabulate f 0 n)))
          × (lookup p d'.packet_map ≡ none)
    unfolding Held Fresh fill_slot item_of complete
    last_fragment full =
        let all : occupied (slots_of f (mem (i ∷ j ∷ seen)) 0 n) ≡ n =
          occupied-seen (i ∷ j ∷ seen) (h, new, fresh) ∙ full in
        (
          record { packet_map = delete p (insert p (item_of (i ∷ j ∷ seen)) d.packet_map) },
          feed-fill_slot
              ∙ ground (
                arith,
                of_packet i,
                of_index i,
                slots-cons i (j ∷ seen) h,
                length-slots_of f (mem (i ∷ j ∷ seen)) 0 n,
                collect-slots_of f (mem (i ∷ j ∷ seen)) 0 n all,
              ),
          lookup-delete_self p _,
        )

  -- The results of a run: nil for all but the last, then the assembled message.
  abbrev results : List ℕ → List (Option (UdpMessage D))
  results more = replicate (length more) none ++ assemble (tabulate f 0 n) ∷ []

  feed_all_from :
      (i : ℕ) (more : List ℕ) (j : ℕ) (seen : List ℕ) (d : UdpDefragger D)
      → Held (j ∷ seen) d
      → Fresh (j ∷ seen)
      → Todo n (j ∷ seen) (i ∷ more)
      → length (i ∷ more) + length (j ∷ seen) ≡ n
      → (d' : UdpDefragger D) × (feed_all d (map f (i ∷ more)) ≡ some (d', results more))
        × (lookup p d'.packet_map ≡ none)
  unfolding feed_all
  feed_all_from i [] j seen d held fresh (h, new, _) len =
      let (d', e, gone) = last_fragment d i j seen held h new fresh (omega arith) in
      (d', feed_all-cons d (f i) [] d' d' _ [] e (feed_all-nil d'), gone)
  feed_all_from i (k ∷ more) j seen d held fresh (h, new, todo) len =
      let (d', e, held') = next-Held d i j seen held h new fresh (omega arith) in
      let (end, run, gone) =
        feed_all_from k more i (j ∷ seen) d' held' (unfold Fresh in (h, new, fresh)) todo
          (omega arith) in
      (end, feed_all-cons d (f i) (map f (k ∷ more)) d' end none _ e run, gone)

  pub feed_all_order :
      (order : List ℕ) (d : UdpDefragger D)
      → lookup p d.packet_map ≡ none
      → Todo n [] order
      → length order ≡ n
      → (d' : UdpDefragger D) × (feed_all d (map f order)
          ≡ some (d', replicate (n - 1) none ++ assemble (tabulate f 0 n) ∷ []))
        × (lookup p d'.packet_map ≡ none)
  unfolding feed_all Held
  feed_all_order [] d none_yet todo len = absurd (omega arith)
  feed_all_order (i ∷ []) d none_yet todo len = absurd (omega arith)
  feed_all_order (i ∷ k ∷ more) d none_yet (h, new, todo) len =
      let (d', e, held) = start-Held d i none_yet h in
      let (end, run, gone) =
        feed_all_from k more i [] d' held (unfold Fresh in (h, new, tt)) todo (omega arith) in
      let short : n - 1 ≡ suc (length more) = omega arith in
      (end, rw short (feed_all-cons d (f i) (map f (k ∷ more)) d' end none _ e run), gone)
