-- ===== src/Dispatcher/Sniffer/Laws.antt =====
-- What sniffing finds, against its description by filters, and what it does when nothing is found.
use ppanel_node.Base.{
  ℕ, Option, none, some, List, [], ◌∷◌, ◌++◌, true, false, if◌then◌else◌, ◌≡◌, ◌≢◌, ◌⊎◌, refl, ap,
  inl, inr, arith, Bool-cases, All,
}
use ppanel_node.Dispatcher.Sniffer.{
  Network, unknown, tcp, udp, unix, network_beq, SniffResult, no_clue, need_more_data,
  unknown_content, Answer, ProtocolSniffer, Sniffer, Verdict, found, pending, dropped, verdict,
  is_skipped, give_up, sniff_each, sniff,
}
use ppanel_node.Dispatcher.Sniffer.FakeDns.{
  FakeDns, Probes, content_sniffers, fake_dns_sniffer, fake_dns_then_others, new_sniffer,
}

-- The sniffers of a network.
unfoldable pub asked : Network → Sniffer → Sniffer
asked network [] = []
asked network (si ∷ s) =
    let rest = asked network s in if is_skipped network si then rest else si ∷ rest

-- The first result among their answers.
unfoldable pub first_found : List ℕ → Sniffer → Option SniffResult
first_found payload [] = none
first_found payload (si ∷ s) =
    let rest = first_found payload s in
    elim (verdict (si.protocol_sniffer (some payload))) [
      | found r ↦ some r
      | pending ↦ rest
      | dropped ↦ rest
    ]

-- Those whose answer is "no clue".
unfoldable pub undecided : List ℕ → Sniffer → Sniffer
undecided payload [] = []
undecided payload (si ∷ s) =
    let rest = undecided payload s in
    elim (verdict (si.protocol_sniffer (some payload))) [
      | found r ↦ rest
      | pending ↦ si ∷ rest
      | dropped ↦ rest
    ]

abbrev pub sniffed : Sniffer → Sniffer → Option SniffResult → Sniffer × Answer
sniffed s waiting (some r) = (s, (some r, none))
sniffed s waiting none = give_up s waiting

append_one : (xs ys : Sniffer) (si : ProtocolSniffer) → (xs ++ si ∷ []) ++ ys ≡ xs ++ (si ∷ ys)
append_one [] ys si = refl
append_one (x ∷ xs) ys si = ap (λ r. x ∷ r) (append_one xs ys si)

append_nil : (xs : Sniffer) → xs ++ [] ≡ xs
append_nil [] = refl
append_nil (x ∷ xs) = ap (λ r. x ∷ r) (append_nil xs)

pub Verdict-cases :
    (v : Verdict) → (v ≡ pending) ⊎ (v ≡ dropped) ⊎ ((r : SniffResult) × (v ≡ found r))
Verdict-cases pending = inl refl
Verdict-cases dropped = inr (inl refl)
Verdict-cases (found r) = inr (inr (r, refl))

sniff_each_lem :
    (s : Sniffer) (network : Network) (payload : List ℕ) (waiting rest : Sniffer)
    → sniff_each s network payload waiting rest
      ≡ sniffed s
          (waiting ++ undecided payload (asked network rest))
          (first_found payload (asked network rest))
unfolding sniff_each undecided asked first_found
sniff_each_lem s network payload waiting [] = rw (append_nil waiting)
sniff_each_lem s network payload waiting (si ∷ rest) = elim (Bool-cases (is_skipped network si)) [
  | inl skip ↦ rw (skip, sniff_each) (sniff_each_lem s network payload waiting rest)
  | inr ask ↦ elim (Verdict-cases (verdict (si.protocol_sniffer (some payload)))) [
    | inl p ↦ rw (
      ask,
      sniff_each,
      undecided,
      first_found,
      p,
      sniff_each_lem s network payload (waiting ++ si ∷ []) rest,
      append_one waiting (undecided payload (asked network rest)) si,
    )
    | inr (inl d) ↦
        rw (ask, sniff_each, undecided, first_found, d)
          (sniff_each_lem s network payload waiting rest)
    | inr (inr (r, f)) ↦ rw (ask, sniff_each, undecided, first_found, f)
  ]
]

-- Sniffing takes the first result that a sniffer of the link's network gives for the payload, and keeps
-- all sniffers. Without a result it keeps the sniffers that answer "no clue", with "no clue", or if there
-- are none it fails with "unknown content".
pub sniff-first_found :
    (s : Sniffer) (network : Network) (payload : List ℕ)
    → sniff s network payload
      ≡ sniffed s (undecided payload (asked network s)) (first_found payload (asked network s))
unfolding sniff
sniff-first_found s network payload = sniff_each_lem s network payload [] s

-- A result comes without an error, and no result with one of the two errors that the loops give.
abbrev pub IsVerdict : Answer → Type 0
IsVerdict (some r, none) = Unit {0}
IsVerdict (none, some e) = (e ≡ no_clue) ⊎ (e ≡ unknown_content)
IsVerdict (none, none) = ⊥
IsVerdict (some r, some e) = ⊥

give_up-IsVerdict : (s waiting : Sniffer) → IsVerdict (give_up s waiting).1
unfolding give_up
give_up-IsVerdict s [] = inr refl
give_up-IsVerdict s (si ∷ waiting) = inl refl

sniffed-IsVerdict :
    (s waiting : Sniffer) (r : Option SniffResult) → IsVerdict (sniffed s waiting r).1
sniffed-IsVerdict s waiting (some r) = tt
sniffed-IsVerdict s waiting none = give_up-IsVerdict s waiting

-- `Sniff` returns a result without an error, or no result with "no clue" or "unknown content".
pub sniff-IsVerdict :
    (s : Sniffer) (network : Network) (payload : List ℕ) → IsVerdict (sniff s network payload).1
sniff-IsVerdict s network payload = rw (sniff-first_found s network payload) (
    sniffed-IsVerdict s (undecided payload (asked network s))
      (first_found payload (asked network s)))

-- A sniffer that is left out of `Sniff`, or that asks for more data.
abbrev pub NeedsMore : Network → List ℕ → ProtocolSniffer → Type 0
NeedsMore network payload si =
    (is_skipped network si ≡ true) ⊎ ((si.protocol_sniffer (some payload)).1 ≡ some need_more_data)

need_more-dropped : (a : Answer) → a.1 ≡ some need_more_data → verdict a ≡ dropped
unfolding verdict
need_more-dropped (some r, none) h = cc
need_more-dropped (none, none) h = cc
need_more-dropped (some r, some e) h = ground arith
need_more-dropped (none, some e) h = ground arith

sniff_each-NeedsMore :
    (s : Sniffer) (network : Network) (payload : List ℕ) (rest : Sniffer)
    → All (NeedsMore network payload) rest
    → sniff_each s network payload [] rest ≡ (s, (none, some unknown_content))
unfolding sniff_each
sniff_each-NeedsMore s network payload [] all = unfold give_up in refl
sniff_each-NeedsMore s network payload (si ∷ rest) (inl skip, all) =
    rw (skip, sniff_each) (sniff_each-NeedsMore s network payload rest all)
sniff_each-NeedsMore s network payload (si ∷ rest) (inr more, all) =
    elim (Bool-cases (is_skipped network si)) [
      | inl skip ↦ rw (skip, sniff_each) (sniff_each-NeedsMore s network payload rest all)
      | inr ask ↦
          rw (ask, sniff_each, need_more-dropped (si.protocol_sniffer (some payload)) more)
            (sniff_each-NeedsMore s network payload rest all)
    ]

-- When all that the sniffers of a network have to say is that they need more data, sniffing does not
-- wait for it: it ends with "unknown content".
pub sniff-NeedsMore :
    (s : Sniffer) (network : Network) (payload : List ℕ)
    → All (NeedsMore network payload) s
    → sniff s network payload ≡ (s, (none, some unknown_content))
unfolding sniff
sniff-NeedsMore s network payload all = sniff_each-NeedsMore s network payload s all

not-unknown : (network : Network) → network ≢ unknown → network_beq unknown network ≡ false
not-unknown unknown known = absurd (known refl)
not-unknown tcp known = refl
not-unknown udp known = refl
not-unknown unix known = refl

asked-append_skipped :
    (network : Network) (si : ProtocolSniffer) (s : Sniffer)
    → is_skipped network si ≡ true
    → asked network (s ++ si ∷ []) ≡ asked network s
unfolding asked
asked-append_skipped network si [] skip = rw skip
asked-append_skipped network si (x ∷ s) skip = rw (asked-append_skipped network si s skip)

sniffed_same_answer :
    (s s' waiting : Sniffer) (r : Option SniffResult)
    → (sniffed s waiting r).1 ≡ (sniffed s' waiting r).1
unfolding give_up
sniffed_same_answer s s' waiting (some r) = refl
sniffed_same_answer s s' [] none = refl
sniffed_same_answer s s' (si ∷ waiting) none = refl

-- Sniffers in front and behind that are left out.
sniff_between :
    (s : Sniffer) (before after : ProtocolSniffer) (network : Network) (payload : List ℕ)
    → is_skipped network before ≡ true
    → is_skipped network after ≡ true
    → (sniff (before ∷ (s ++ after ∷ [])) network payload).1 ≡ (sniff s network payload).1
sniff_between s before after network payload skip skip' =
    let same : asked network (before ∷ (s ++ after ∷ [])) ≡ asked network s =
      unfold asked in rw skip (asked-append_skipped network after s skip') in
    rw
      (
        sniff-first_found (before ∷ (s ++ after ∷ [])) network payload,
        sniff-first_found s network payload,
        same,
      )
      (sniffed_same_answer (before ∷ (s ++ after ∷ [])) s (undecided payload (asked network s))
        (first_found payload (asked network s)))

-- A fake DNS engine changes no answer of `Sniff`: for every network of a link the sniffer of
-- `newFakeDNSThenOthers` is left out.
pub sniff-fake_dns :
    (p : Probes) (f : FakeDns) (target network : Network) (payload : List ℕ)
    → network ≢ unknown
    → (sniff (new_sniffer p (some f) target) network payload).1
      ≡ (sniff (new_sniffer p none target) network payload).1
unfolding new_sniffer
sniff-fake_dns p f target network payload known =
    sniff_between (content_sniffers p) (fake_dns_then_others f target (content_sniffers p))
      (fake_dns_sniffer f target) network payload
      (unfold is_skipped fake_dns_then_others in rw (not-unknown network known))
      (unfold is_skipped fake_dns_sniffer in refl)
