-- ===== src/Dispatcher/Content/Timeout.antt =====
-- A read that times out while sniffing.
use ppanel_node.Base.{
  ℕ, zero, suc, Option, none, some, List, [], ◌∷◌, false, ◌≡◌, refl, ap, replicate,
}
use ppanel_node.Dispatcher.Sniffer.{Network, ReadError, read_timeout, read_failed}
use ppanel_node.Dispatcher.Content.{
  Read, CachedReader, cache_read, read_through, read_multi_buffer, Round, Sniffing, sniff_round,
  content_loop,
}

-- The results of the next reads.
pub reads : ℕ → CachedReader → List Read
unfolding read_multi_buffer
reads zero r = []
reads (suc n) r = let (r', read) = read_multi_buffer r in read ∷ reads n r'

read_stuck :
    (r : CachedReader) (cache : List ℕ) (error : Option ReadError) (e : ReadError)
    → cache ≡ []
    → error ≡ some e
    → read_through r cache error ≡ (r, ([], some e))
read_stuck r cache error e empty stored = rw (empty, stored) refl

reads_stuck :
    (n : ℕ) (r : CachedReader) (e : ReadError)
    → r.cache ≡ []
    → r.error ≡ some e
    → reads n r ≡ replicate n ([], some e)
unfolding reads read_multi_buffer
reads_stuck zero r e empty stored = refl
reads_stuck (suc n) r e empty stored =
    rw (read_stuck r r.cache r.error e empty stored)
      (ap (λ rest. ([], some e) ∷ rest) (reads_stuck n r e empty stored))

-- A link whose first bytes come late stays broken: if the first read times out while sniffing, the
-- sniffing ends with that error, and every later read gives the error again and no bytes, whatever
-- arrives in the meantime.
pub content_loop_timeout :
    (capacity n : ℕ) (network : Network) (t : Round) (ts : List Round) (st : Sniffing)
    (deadline attempts : ℕ) (rest : List Read)
    → t.is_done ≡ false
    → st.1.cache ≡ []
    → st.1.source ≡ ([], some read_timeout) ∷ rest
    → (r : CachedReader) × (content_loop capacity network (t ∷ ts) st deadline attempts
        ≡ some (r, (none, some (read_failed read_timeout))))
      × (r.source ≡ rest)
      × (reads n r ≡ replicate n ([], some read_timeout))
unfolding content_loop sniff_round cache_read
content_loop_timeout capacity n network t ts (s, r) deadline attempts rest running empty late =
    let after : CachedReader = record { source = rest; cache = []; error = some read_timeout } in
    (after, rw (running, empty, late) refl, refl, reads_stuck n after read_timeout refl refl)
