-- ===== src/Dispatcher/Content.antt =====
-- core/app/dispatcher/default.go: `cachedReader`, which keeps the bytes that sniffing reads, and the
-- function `sniffer`, which reads and sniffs until it knows or gives up.
pub mod Laws
pub mod Timeout
use ppanel_node.Base.{
  ℕ, ◌+◌, ◌-◌, ◌*◌, ◌^◌, Option, none, some, List, [], ◌∷◌, ◌++◌, Bool, true, false, ◌||◌,
  if◌then◌else◌, leb, take,
}
use ppanel_node.Dispatcher.Sniffer.{
  Network, SniffResult, composite, ReadError, read_closed, SniffError, no_clue, need_more_data,
  unknown_content, sniffing_timeout, cancelled, sniff_failed, read_failed, Answer, Sniffer, sniff,
  sniff_metadata,
}
use ppanel_node.Dispatcher.Sniffer.FakeDns.{FakeDns, Probes, new_sniffer}

-- What one read gives: bytes, and an error or nil.
abbrev pub Read : Type 0
Read = List ℕ × Option ReadError

-- The reader underneath is what its next reads give; behind them it is closed.
pub record CachedReader : Type 0 where
  pub source : List Read
  pub cache : List ℕ
  pub error : Option ReadError

abbrev pub next_read : List Read → Read × List Read
next_read [] = (([], some read_closed), [])
next_read (read ∷ source) = (read, source)

abbrev later_error : Option ReadError → Option ReadError → Option ReadError
later_error none old = old
later_error (some e) old = some e

-- `Cache`: the reader, the bytes copied into a buffer of the given capacity, and the error.
unfoldable pub cache_read : ℕ → CachedReader → CachedReader × List ℕ × Option ReadError
cache_read capacity r =
    let ((bytes, e), source) = next_read r.source in
    (
      record { source = source; cache = r.cache ++ bytes; error = later_error e r.error },
      take capacity (r.cache ++ bytes),
      e,
    )

-- `ReadMultiBuffer` and `ReadMultiBufferTimeout`: the cache or the stored error first.
abbrev read_through : CachedReader → List ℕ → Option ReadError → CachedReader × Read
read_through r (b ∷ bytes) e = (record r { cache = [] }, (b ∷ bytes, e))
read_through r [] (some e) = (r, ([], some e))
read_through r [] none =
    let (read, source) = next_read r.source in (record r { source = source }, read)

unfoldable pub read_multi_buffer : CachedReader → CachedReader × Read
read_multi_buffer r = read_through r r.cache r.error

-- One pass through the loop: whether the context is done, and the nanoseconds that reading took.
pub record Round : Type 0 where
  pub is_done : Bool
  pub elapsed : ℕ

pub data Outcome : Type 0 where
  finished : Answer → Outcome
  again : ℕ → ℕ → Outcome

unfoldable pub check_attempts : ℕ → ℕ → Outcome
check_attempts deadline attempts =
    if leb 2 attempts || leb deadline 0
    then finished (none, some sniffing_timeout)
    else again deadline attempts

unfoldable pub after_sniff : ℕ → ℕ → Answer → Outcome
unfolding check_attempts
after_sniff deadline attempts (r, some no_clue) = check_attempts deadline (attempts + 1)
after_sniff deadline attempts (r, some need_more_data) = check_attempts deadline attempts
after_sniff deadline attempts (r, none) = finished (r, none)
after_sniff deadline attempts (r, some e) = finished (r, some e)

abbrev sniff_payload : Network → Sniffer → ℕ → ℕ → List ℕ → Option ReadError → Sniffer × Outcome
sniff_payload network s deadline attempts payload (some e) =
    (s, finished (none, some (read_failed e)))
sniff_payload network s deadline attempts [] none = (s, check_attempts deadline (attempts + 1))
sniff_payload network s deadline attempts (b ∷ payload) none =
    let (s', answer) = sniff s network (b ∷ payload) in (s', after_sniff deadline attempts answer)

abbrev pub Sniffing : Type 0
Sniffing = Sniffer × CachedReader

unfoldable pub sniff_round : ℕ → Network → Round → Sniffing → ℕ → ℕ → Sniffing × Outcome
unfolding sniff after_sniff cache_read
sniff_round capacity network t (s, r) deadline attempts =
    let (r', payload, e) = cache_read capacity r in
    let (s', outcome) = sniff_payload network s (deadline - t.elapsed) attempts payload e in
    if t.is_done then ((s, r), finished (none, some cancelled)) else ((s', r'), outcome)

-- The loop, on the passes that time allows it; `none` when these are used up.
unfoldable pub content_loop :
    ℕ → Network → List Round → Sniffing → ℕ → ℕ → Option (CachedReader × Answer)
unfolding sniff_round
content_loop capacity network [] st deadline attempts = none
content_loop capacity network (t ∷ ts) st deadline attempts =
    let (st', outcome) = sniff_round capacity network t st deadline attempts in
    elim outcome [
      | finished answer ↦ some (st'.1, answer)
      | again deadline' attempts' ↦ content_loop capacity network ts st' deadline' attempts'
    ]

-- The results of both kinds of sniffing. A result is nil exactly where its error is not
-- (`sniff-IsVerdict`), so the clauses with neither are not reached.
unfoldable pub combine_results : Answer → Answer → Answer
combine_results (m, none) (c, some e) = (m, none)
combine_results (some m, none) (some c, none) = (some (composite m c), none)
combine_results (m, none) (c, none) = (none, none)
combine_results (m, some e) content = content

-- `cacheDeadline`: 200 milliseconds.
abbrev pub cache_deadline : ℕ
cache_deadline = 200000000

abbrev with_metadata : Answer → Option (CachedReader × Answer) → Option (CachedReader × Answer)
with_metadata meta none = none
with_metadata meta (some (r, content)) = some (r, combine_results meta content)

unfoldable pub sniff_link :
    ℕ
    → Probes
    → Option FakeDns
    → Network
    → Bool
    → Network
    → List Round
    → CachedReader
    → Option (CachedReader × Answer)
unfolding new_sniffer sniff_metadata content_loop combine_results
sniff_link capacity p fdns target_network metadata_only network rounds r =
    let (s, meta) = sniff_metadata (new_sniffer p fdns target_network) in
    let content = content_loop capacity network rounds (s, r) cache_deadline 0 in
    if metadata_only then some (r, meta) else with_metadata meta content
