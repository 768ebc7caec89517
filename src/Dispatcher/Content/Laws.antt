-- ===== src/Dispatcher/Content/Laws.antt =====
-- Reading for sniffing ends after two passes, and keeps what it reads.
use ppanel_node.Base.{
  ℕ, ◌+◌, ◌-◌, ◌≤◌, ◌<◌, Option, none, some, List, [], ◌∷◌, ◌++◌, Bool, true, false, ◌||◌, ◌≡◌, ◌⊎◌,
  refl, ap, ◌∙◌, inl, inr, arith, Bool-cases, length, leb,
}
use ppanel_node.Dispatcher.Sniffer.{Network, ReadError, Answer, Sniffer, sniff, sniff_metadata}
use ppanel_node.Dispatcher.Sniffer.Laws.{IsVerdict, sniff-IsVerdict}
use ppanel_node.Dispatcher.Sniffer.FakeDns.{FakeDns, Probes, new_sniffer}
use ppanel_node.Dispatcher.Content.{
  Read, CachedReader, next_read, cache_read, read_through, read_multi_buffer, Round, Outcome,
  finished, again, check_attempts, after_sniff, sniff_payload, Sniffing, sniff_round, content_loop,
  combine_results, with_metadata, cache_deadline, sniff_link,
}

-- A pass that does not end the loop counts one attempt, and fewer than two have been made.
abbrev Counts : ℕ → Outcome → Type 0
Counts n (finished answer) = Unit {0}
Counts n (again deadline attempts) = (attempts ≡ n + 1) × (attempts < 2)

check_attempts-Counts : (deadline n : ℕ) → Counts n (check_attempts deadline (n + 1))
unfolding check_attempts
check_attempts-Counts deadline n = elim (Bool-cases (leb 2 (n + 1) || leb deadline 0)) [
  | inl over ↦ rw over tt
  | inr more ↦ rw more (refl, ground arith)
]

after_sniff-Counts :
    (deadline n : ℕ) (a : Answer) → IsVerdict a → Counts n (after_sniff deadline n a)
unfolding after_sniff
after_sniff-Counts deadline n (some r, none) v = tt
after_sniff-Counts deadline n (none, none) v = absurd v
after_sniff-Counts deadline n (some r, some e) v = absurd v
after_sniff-Counts deadline n (none, some e) (inl p) =
    rw (p, after_sniff) (check_attempts-Counts deadline n)
after_sniff-Counts deadline n (none, some e) (inr p) = rw (p, after_sniff) tt

sniff_payload-Counts :
    (network : Network) (s : Sniffer) (deadline n : ℕ) (payload : List ℕ) (e : Option ReadError)
    → Counts n (sniff_payload network s deadline n payload e).1
sniff_payload-Counts network s deadline n payload (some e) = tt
sniff_payload-Counts network s deadline n [] none = check_attempts-Counts deadline n
sniff_payload-Counts network s deadline n (b ∷ payload) none =
    after_sniff-Counts deadline n (sniff s network (b ∷ payload)).1
      (sniff-IsVerdict s network (b ∷ payload))

sniff_round-Counts :
    (capacity : ℕ) (network : Network) (t : Round) (st : Sniffing) (deadline n : ℕ)
    → Counts n (sniff_round capacity network t st deadline n).1
unfolding sniff_round
sniff_round-Counts capacity network t (s, r) deadline n =
    let (r', payload, e) = cache_read capacity r in
    elim (Bool-cases t.is_done) [
      | inl over ↦ rw over tt
      | inr more ↦ rw more (sniff_payload-Counts network s (deadline - t.elapsed) n payload e)
    ]

Outcome-cases :
    (o : Outcome) → ((a : Answer) × (o ≡ finished a)) ⊎ ((d : ℕ) × (n : ℕ) × (o ≡ again d n))
Outcome-cases (finished a) = inl (a, refl)
Outcome-cases (again d n) = inr (d, n, refl)

-- The loop that reads and sniffs ends: within two passes, for whatever the passes read, it has a result
-- or an error.
pub content_loop_total :
    (capacity : ℕ) (network : Network) (ts : List Round) (st : Sniffing) (deadline n : ℕ)
    → n < 2
    → 2 ≤ length ts + n
    → (x : CachedReader × Answer) × (content_loop capacity network ts st deadline n ≡ some x)
unfolding content_loop
content_loop_total capacity network [] st deadline n small enough = absurd (omega arith)
content_loop_total capacity network (t ∷ ts) st deadline n small enough =
    let counts = sniff_round-Counts capacity network t st deadline n in
    let st' = (sniff_round capacity network t st deadline n).0 in
    elim (Outcome-cases (sniff_round capacity network t st deadline n).1) [
      | inl (a, e) ↦ ((st'.1, a), rw (content_loop, e))
      | inr (d, m, e) ↦
          let counted : Counts n (again d m) = rw e at counts in
          rw (content_loop, e)
            (content_loop_total capacity network ts st' d m counted.1 (omega (arith, counted.0)))
    ]

-- What later reads can still give: the cache, and what the reader underneath holds.
pub stored : List Read → List ℕ
stored [] = []
stored ((bytes, e) ∷ source) = bytes ++ stored source

pub remaining : CachedReader → List ℕ
remaining r = r.cache ++ stored r.source

append_assoc : (xs ys zs : List ℕ) → (xs ++ ys) ++ zs ≡ xs ++ (ys ++ zs)
append_assoc [] ys zs = refl
append_assoc (x ∷ xs) ys zs = ap (λ r. x ∷ r) (append_assoc xs ys zs)

next_read-stored :
    (source : List Read) → (next_read source).0.0 ++ stored (next_read source).1 ≡ stored source
unfolding stored
next_read-stored [] = refl
next_read-stored ((bytes, e) ∷ source) = refl

cache_read-remaining :
    (capacity : ℕ) (r : CachedReader) → remaining (cache_read capacity r).0 ≡ remaining r
unfolding remaining cache_read
cache_read-remaining capacity r =
    append_assoc r.cache (next_read r.source).0.0 (stored (next_read r.source).1)
    ∙ ap (λ bytes. r.cache ++ bytes) (next_read-stored r.source)

sniff_round-remaining :
    (capacity : ℕ) (network : Network) (t : Round) (st : Sniffing) (deadline n : ℕ)
    → remaining (sniff_round capacity network t st deadline n).0.1 ≡ remaining st.1
unfolding sniff_round
sniff_round-remaining capacity network t (s, r) deadline n = elim (Bool-cases t.is_done) [
  | inl over ↦ rw over refl
  | inr more ↦ rw more (cache_read-remaining capacity r)
]

-- Sniffing loses no byte of a link and keeps their order: what is cached and what is still unread after
-- it are together what they were before it.
pub content_loop-remaining :
    (capacity : ℕ) (network : Network) (ts : List Round) (st : Sniffing) (deadline n : ℕ)
    (r : CachedReader) (a : Answer)
    → content_loop capacity network ts st deadline n ≡ some (r, a)
    → remaining r ≡ remaining st.1
unfolding content_loop
content_loop-remaining capacity network [] st deadline n r a e = cc
content_loop-remaining capacity network (t ∷ ts) st deadline n r a e =
    let st' = (sniff_round capacity network t st deadline n).0 in
    let step = sniff_round-remaining capacity network t st deadline n in
    elim (Outcome-cases (sniff_round capacity network t st deadline n).1) [
      | inl (answer, o) ↦
          let done : some (st'.1, answer) ≡ some (r, a) = rw (content_loop, o) at e in
          let same : st'.1 ≡ r = cc done in rw (← same) step
      | inr (d, m, o) ↦
          let rest : content_loop capacity network ts st' d m ≡ some (r, a) =
            rw (content_loop, o) at e in
          content_loop-remaining capacity network ts st' d m r a rest ∙ step
    ]

read_through-remaining :
    (r : CachedReader) (cache : List ℕ) (e : Option ReadError)
    → r.cache ≡ cache
    → (read_through r cache e).1.0 ++ remaining (read_through r cache e).0 ≡ remaining r
unfolding remaining
read_through-remaining r (b ∷ cache) e c = rw c refl
read_through-remaining r [] (some e) c = refl
read_through-remaining r [] none c = rw c (next_read-stored r.source)

-- A read of the cached reader takes its bytes off the front of what remains.
pub read_multi_buffer-remaining :
    (r : CachedReader)
    → (read_multi_buffer r).1.0 ++ remaining (read_multi_buffer r).0 ≡ remaining r
unfolding read_multi_buffer
read_multi_buffer-remaining r = read_through-remaining r r.cache r.error refl

with_metadata_total :
    (meta : Answer) (o : Option (CachedReader × Answer)) (x : CachedReader × Answer)
    → o ≡ some x
    → (y : CachedReader × Answer) × (with_metadata meta o ≡ some y)
with_metadata_total meta none x e = cc
with_metadata_total meta (some (r, content)) x e = ((r, combine_results meta content), refl)

-- Sniffing a link ends within two passes, whether metadata is enough or not.
pub sniff_link_total :
    (capacity : ℕ) (p : Probes) (fdns : Option FakeDns) (target network : Network)
    (metadata_only : Bool) (ts : List Round) (r : CachedReader)
    → 2 ≤ length ts
    → (y : CachedReader × Answer) × (sniff_link capacity p fdns target metadata_only network ts r
        ≡ some y)
unfolding sniff_link
sniff_link_total capacity p fdns target network true ts r enough =
    ((r, (sniff_metadata (new_sniffer p fdns target)).1), refl)
sniff_link_total capacity p fdns target network false ts r enough =
    let (s, meta) = sniff_metadata (new_sniffer p fdns target) in
    let (x, e) =
      content_loop_total capacity network ts (s, r) cache_deadline 0 (omega arith) (omega arith) in
    with_metadata_total meta (content_loop capacity network ts (s, r) cache_deadline 0) x e
