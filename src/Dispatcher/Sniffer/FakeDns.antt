-- ===== src/Dispatcher/Sniffer/FakeDns.antt =====
-- core/app/dispatcher/fakednssniffer.go and `NewSniffer`: the sniffers of a link. The fake DNS engine of
-- xray-core is a parameter; without it there are the content sniffers only.
use ppanel_node.Base.{
  ℕ, String, Option, none, some, List, [], ◌∷◌, ◌++◌, Bool, true, false, ◌||◌, if◌then◌else◌,
}
use ppanel_node.Base.Eq.{◌==◌, string_eq}
use ppanel_node.Dispatcher.Sniffer.{
  Network, unknown, tcp, udp, unix, SniffResult, fake_dns, dns_then_others, protocol_of, domain_of,
  no_clue, Answer, ProtocolSniffer, Sniffer,
}

-- The engine at the target of the link: `GetDomainFromFakeDNS`, and `IsIPInIPPool` if the engine
-- implements `FakeDNSEngineRev0`.
pub record FakeDns : Type 0 where
  pub domain_from_fake_dns : String
  pub is_ip_in_ip_pool : Option Bool

-- Fake addresses are looked up for TCP and UDP.
abbrev is_lookup : Network → Bool
is_lookup tcp = true
is_lookup udp = true
is_lookup unknown = false
is_lookup unix = false

-- The sniffer of `newFakeDNSSniffer` on a link of the given network, with the value that it stores as
-- `addressInRange`, if it is asked to.
unfoldable pub fake_dns_answer : FakeDns → Network → Answer × Option Bool
fake_dns_answer f target_network =
    if is_lookup target_network
    then (if f.domain_from_fake_dns == ""
        then ((none, some no_clue), f.is_ip_in_ip_pool)
        else ((some (fake_dns f.domain_from_fake_dns), none), none))
    else ((none, some no_clue), f.is_ip_in_ip_pool)

unfoldable pub fake_dns_sniffer : FakeDns → Network → ProtocolSniffer
unfolding fake_dns_answer
fake_dns_sniffer f target_network = record {
  protocol_sniffer = λ bytes. (fake_dns_answer f target_network).0;
  metadata_sniffer = true;
  network = unknown;
}

-- What the loop over the other sniffers looks at; `Protocol` of a nil result with no error panics
-- there, which the sniffers of xray-core do not return: it is passed over here.
abbrev success : Answer → Option SniffResult
success (some r, none) = some r
success (none, none) = none
success (r, some e) = none

abbrev is_some : Option (List ℕ) → Bool
is_some none = false
is_some (some bytes) = true

unfoldable pub first_of_others : Option (List ℕ) → Sniffer → Option SniffResult
first_of_others bytes [] = none
first_of_others bytes (v ∷ vs) =
    let rest = first_of_others bytes vs in
    elim (if v.metadata_sniffer || is_some bytes
      then success (v.protocol_sniffer bytes)
      else none) [ some r ↦ some r | none ↦ rest ]

abbrev combined : Option SniffResult → Answer
combined none = (none, some no_clue)
combined (some r) = (some (dns_then_others (domain_of r) (protocol_of r)), none)

abbrev after_fake_dns : Option (List ℕ) → Sniffer → Answer × Option Bool → Answer
after_fake_dns bytes others ((r, none), in_range) = (r, none)
after_fake_dns bytes others ((r, some e), some true) = combined (first_of_others bytes others)
after_fake_dns bytes others ((r, some e), some false) = (none, some no_clue)
after_fake_dns bytes others ((r, some e), none) = (none, some no_clue)

-- `newFakeDNSThenOthers`
unfoldable pub fake_dns_then_others : FakeDns → Network → Sniffer → ProtocolSniffer
unfolding fake_dns_answer first_of_others domain_of protocol_of
fake_dns_then_others f target_network others = record {
  protocol_sniffer = λ bytes. after_fake_dns bytes others (fake_dns_answer f target_network);
  metadata_sniffer = false;
  network = unknown;
}

abbrev content_sniffer : Network → (List ℕ → Answer) → ProtocolSniffer
content_sniffer network probe = record {
  protocol_sniffer = λ bytes. elim bytes [ none ↦ probe [] | some b ↦ probe b ];
  metadata_sniffer = false;
  network = network;
}

-- The sniffing functions of xray-core.
pub record Probes : Type 0 where
  pub sniff_http : List ℕ → Answer
  pub sniff_tls : List ℕ → Answer
  pub sniff_bittorrent : List ℕ → Answer
  pub sniff_quic : List ℕ → Answer
  pub sniff_utp : List ℕ → Answer

abbrev pub content_sniffers : Probes → Sniffer
content_sniffers p =
    content_sniffer tcp p.sniff_http
    ∷ content_sniffer tcp p.sniff_tls
    ∷ content_sniffer tcp p.sniff_bittorrent
    ∷ content_sniffer udp p.sniff_quic
    ∷ content_sniffer udp p.sniff_utp
    ∷ []

unfoldable pub new_sniffer : Probes → Option FakeDns → Network → Sniffer
unfolding fake_dns_then_others fake_dns_sniffer
new_sniffer p none target_network = content_sniffers p
new_sniffer p (some f) target_network =
    fake_dns_then_others f target_network (content_sniffers p)
    ∷ (content_sniffers p ++ fake_dns_sniffer f target_network ∷ [])
