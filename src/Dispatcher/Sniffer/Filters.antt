-- ===== src/Dispatcher/Sniffer/Filters.antt =====
-- `Sniff` of core/app/dispatcher/sniffer.go against a description that goes by the answers of the
-- sniffers alone.
use ppanel_node.Base.{
  ℕ, Option, none, some, List, [], ◌∷◌, Bool, true, false, not, ◌&&◌, if◌then◌else◌, ◌≡◌, refl, ap,
  inl, inr, Bool-cases,
}
use ppanel_node.Dispatcher.Sniffer.{
  Network, network_beq, SniffResult, SniffError, no_clue, need_more_data, unknown_content,
  sniffing_timeout, cancelled, sniff_failed, read_failed, Answer, Sniffer, found, pending, dropped,
  verdict, is_skipped, give_up, sniff,
}
use ppanel_node.Dispatcher.Sniffer.Laws.{
  asked, first_found, undecided, sniffed, Verdict-cases, sniff-first_found,
}

-- The sniffers of the bytes of a network.
pub of_network : Network → Sniffer → Sniffer
of_network network [] = []
of_network network (si ∷ s) =
    let rest = of_network network s in
    if not si.metadata_sniffer && network_beq si.network network then si ∷ rest else rest

-- The result of an answer that comes without an error.
pub result_of : Answer → Option SniffResult
result_of (r, none) = r
result_of (r, some e) = none

pub is_no_clue : SniffError → Bool
is_no_clue no_clue = true
is_no_clue need_more_data = false
is_no_clue unknown_content = false
is_no_clue sniffing_timeout = false
is_no_clue cancelled = false
is_no_clue sniff_failed = false
is_no_clue (read_failed e) = false

pub has_no_clue : Answer → Bool
unfolding is_no_clue
has_no_clue (r, none) = false
has_no_clue (r, some e) = is_no_clue e

abbrev pub or_else : Option SniffResult → Option SniffResult → Option SniffResult
or_else none later = later
or_else (some r) later = some r

pub first_result : List ℕ → Sniffer → Option SniffResult
unfolding result_of
first_result payload [] = none
first_result payload (si ∷ s) =
    or_else (result_of (si.protocol_sniffer (some payload))) (first_result payload s)

-- Those that answer "no clue", which may have one of more bytes.
pub without_clue : List ℕ → Sniffer → Sniffer
unfolding has_no_clue
without_clue payload [] = []
without_clue payload (si ∷ s) =
    let rest = without_clue payload s in
    if has_no_clue (si.protocol_sniffer (some payload)) then si ∷ rest else rest

-- The sniffers that are kept, and the answer, from the first result and the sniffers without a clue.
abbrev pub concluded : Sniffer → Sniffer → Option SniffResult → Sniffer × Answer
concluded s waiting (some r) = (s, (some r, none))
concluded s [] none = (s, (none, some unknown_content))
concluded s (si ∷ waiting) none = (si ∷ waiting, (none, some no_clue))

of_network-asked : (network : Network) (s : Sniffer) → of_network network s ≡ asked network s
unfolding of_network asked is_skipped
of_network-asked network [] = refl
of_network-asked network (si ∷ s) = elim (Bool-cases si.metadata_sniffer) [
  | inl metadata ↦ simp (metadata, of_network-asked network s)
  | inr bytes ↦ elim (Bool-cases (network_beq si.network network)) [
    | inl same ↦ simp (bytes, same, of_network-asked network s)
    | inr other ↦ simp (bytes, other, of_network-asked network s)
  ]
]

-- What the verdict on an answer says of it.
pending_clue : (a : Answer) → verdict a ≡ pending → (result_of a ≡ none) × (has_no_clue a ≡ true)
unfolding verdict result_of has_no_clue is_no_clue
pending_clue (none, none) h = cc h
pending_clue (some r, none) h = cc h
pending_clue (r, some no_clue) h = (refl, refl)
pending_clue (none, some need_more_data) h = cc h
pending_clue (none, some unknown_content) h = cc h
pending_clue (none, some sniffing_timeout) h = cc h
pending_clue (none, some cancelled) h = cc h
pending_clue (none, some sniff_failed) h = cc h
pending_clue (none, some (read_failed e)) h = cc h
pending_clue (some r, some need_more_data) h = cc h
pending_clue (some r, some unknown_content) h = cc h
pending_clue (some r, some sniffing_timeout) h = cc h
pending_clue (some r, some cancelled) h = cc h
pending_clue (some r, some sniff_failed) h = cc h
pending_clue (some r, some (read_failed e)) h = cc h

dropped_clue : (a : Answer) → verdict a ≡ dropped → (result_of a ≡ none) × (has_no_clue a ≡ false)
unfolding verdict result_of has_no_clue is_no_clue
dropped_clue (none, none) h = (refl, refl)
dropped_clue (some r, none) h = cc h
dropped_clue (none, some no_clue) h = cc h
dropped_clue (some r, some no_clue) h = cc h
dropped_clue (r, some need_more_data) h = (refl, refl)
dropped_clue (r, some unknown_content) h = (refl, refl)
dropped_clue (r, some sniffing_timeout) h = (refl, refl)
dropped_clue (r, some cancelled) h = (refl, refl)
dropped_clue (r, some sniff_failed) h = (refl, refl)
dropped_clue (r, some (read_failed e)) h = (refl, refl)

found_result :
    (a : Answer) (r : SniffResult)
    → verdict a ≡ found r
    → (result_of a ≡ some r) × (has_no_clue a ≡ false)
unfolding verdict result_of has_no_clue is_no_clue
found_result (none, none) r h = cc h
found_result (some s, none) r h = let same : s ≡ r = cc h in (ap (λ x. some x) same, refl)
found_result (o, some no_clue) r h = cc h
found_result (none, some need_more_data) r h = cc h
found_result (none, some unknown_content) r h = cc h
found_result (none, some sniffing_timeout) r h = cc h
found_result (none, some cancelled) r h = cc h
found_result (none, some sniff_failed) r h = cc h
found_result (none, some (read_failed e)) r h = cc h
found_result (some s, some need_more_data) r h = cc h
found_result (some s, some unknown_content) r h = cc h
found_result (some s, some sniffing_timeout) r h = cc h
found_result (some s, some cancelled) r h = cc h
found_result (some s, some sniff_failed) r h = cc h
found_result (some s, some (read_failed e)) r h = cc h

first_result-found :
    (payload : List ℕ) (s : Sniffer) → first_result payload s ≡ first_found payload s
unfolding first_result first_found
first_result-found payload [] = refl
first_result-found payload (si ∷ s) =
    let a = si.protocol_sniffer (some payload) in
    elim (Verdict-cases (verdict a)) [
      | inl p ↦
          rw (first_result, first_found, p, (pending_clue a p).0) (first_result-found payload s)
      | inr (inl d) ↦
          rw (first_result, first_found, d, (dropped_clue a d).0) (first_result-found payload s)
      | inr (inr (r, f)) ↦ rw (first_result, first_found, f, (found_result a r f).0)
    ]

without_clue-undecided :
    (payload : List ℕ) (s : Sniffer) → without_clue payload s ≡ undecided payload s
unfolding without_clue undecided
without_clue-undecided payload [] = refl
without_clue-undecided payload (si ∷ s) =
    let a = si.protocol_sniffer (some payload) in
    elim (Verdict-cases (verdict a)) [
      | inl p ↦
          rw (without_clue, undecided, p, (pending_clue a p).1, without_clue-undecided payload s)
      | inr (inl d) ↦
          rw (without_clue, undecided, d, (dropped_clue a d).1) (without_clue-undecided payload s)
      | inr (inr (r, f)) ↦
          rw (without_clue, undecided, f, (found_result a r f).1) (without_clue-undecided payload s)
    ]

concluded-sniffed :
    (s waiting : Sniffer) (r : Option SniffResult) → concluded s waiting r ≡ sniffed s waiting r
unfolding give_up
concluded-sniffed s waiting (some r) = refl
concluded-sniffed s [] none = refl
concluded-sniffed s (si ∷ waiting) none = refl

-- `Sniff` takes the first result that a sniffer of the bytes of the link's network gives for the payload
-- without an error, and keeps all sniffers. Without such a result it keeps the sniffers of that network
-- that answer "no clue", with "no clue", or if there are none all sniffers, with "unknown content"; an
-- answer with any other error, also "need more data", is not waited for.
pub sniff-first_result :
    (s : Sniffer) (network : Network) (payload : List ℕ)
    → sniff s network payload
      ≡ concluded s
          (without_clue payload (of_network network s))
          (first_result payload (of_network network s))
sniff-first_result s network payload =
    rw
      (
        sniff-first_found s network payload,
        of_network-asked network s,
        without_clue-undecided payload (asked network s),
        first_result-found payload (asked network s),
        concluded-sniffed s (undecided payload (asked network s))
            (first_found payload (asked network s)),
      )
      refl
