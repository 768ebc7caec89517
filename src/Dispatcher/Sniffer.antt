-- ===== src/Dispatcher/Sniffer.antt =====
-- core/app/dispatcher/sniffer.go and fakednssniffer.go: guessing the protocol and the domain of a link
-- from its first bytes and from its target.
pub mod FakeDns
pub mod Laws
pub mod Filters
use ppanel_node.Base.{
  ℕ, String, Option, none, some, List, [], ◌∷◌, ◌++◌, Bool, true, false, not, ◌||◌, if◌then◌else◌,
}
use ppanel_node.Base.Text.{has_prefix}

pub data Network : Type 0 where
  unknown tcp udp unix : Network

abbrev pub network_beq : Network → Network → Bool
network_beq unknown unknown = true
network_beq tcp tcp = true
network_beq udp udp = true
network_beq unix unix = true
network_beq _ _ = false

-- The types that implement `SniffResult`. Those of xray-core have a protocol and a domain, and neither
-- of the two optional interfaces.
pub data SniffResult : Type 0 where
  header : String → String → SniffResult
  fake_dns : String → SniffResult
  dns_then_others : String → String → SniffResult
  composite : SniffResult → SniffResult → SniffResult

unfoldable pub protocol_of : SniffResult → String
protocol_of (header protocol domain) = protocol
protocol_of (fake_dns domain) = "fakedns"
protocol_of (dns_then_others domain original) = "fakedns+others"
protocol_of (composite domain_result protocol_result) = protocol_of protocol_result

unfoldable pub domain_of : SniffResult → String
domain_of (header protocol domain) = domain
domain_of (fake_dns domain) = domain
domain_of (dns_then_others domain original) = domain
domain_of (composite domain_result protocol_result) = domain_of domain_result

-- `ProtocolForDomainResult` where the result has it, and its protocol otherwise.
unfoldable pub protocol_for_domain : SniffResult → String
unfolding protocol_of
protocol_for_domain (composite domain_result protocol_result) = protocol_of domain_result
protocol_for_domain (header protocol domain) = protocol_of (header protocol domain)
protocol_for_domain (fake_dns domain) = protocol_of (fake_dns domain)
protocol_for_domain (dns_then_others domain original) =
    protocol_of (dns_then_others domain original)

-- `IsProtoSubsetOf`, false for a result that does not implement it.
unfoldable pub is_proto_subset_of : SniffResult → String → Bool
unfolding has_prefix
is_proto_subset_of (dns_then_others domain original) p = has_prefix p original
is_proto_subset_of (header protocol domain) p = false
is_proto_subset_of (fake_dns domain) p = false
is_proto_subset_of (composite domain_result protocol_result) p = false

-- `buf.ErrReadTimeout`, and any other error of a reader.
pub data ReadError : Type 0 where
  read_timeout read_closed : ReadError

-- `common.ErrNoClue`, `protocol.ErrProtoNeedMoreData`, `errUnknownContent`, `errSniffingTimeout`, the
-- error of a context that is done, any other error of a sniffer, and that of a reader.
pub data SniffError : Type 0 where
  no_clue need_more_data unknown_content sniffing_timeout cancelled sniff_failed : SniffError
  read_failed : ReadError → SniffError

abbrev pub Answer : Type 0
Answer = Option SniffResult × Option SniffError

-- `protocolSnifferWithMetadata`; the context is fixed, and the bytes may be nil.
pub record ProtocolSniffer : Type 0 where
  pub protocol_sniffer : Option (List ℕ) → Answer
  pub metadata_sniffer : Bool
  pub network : Network

abbrev pub Sniffer : Type 0
Sniffer = List ProtocolSniffer

-- What the loops make of a sniffer's answer.
pub data Verdict : Type 0 where
  found : SniffResult → Verdict
  pending dropped : Verdict

unfoldable pub verdict : Answer → Verdict
verdict (r, some no_clue) = pending
verdict (some r, none) = found r
verdict (none, none) = dropped
verdict (r, some e) = dropped

-- `if si.metadataSniffer || si.network != network { continue }`
unfoldable pub is_skipped : Network → ProtocolSniffer → Bool
is_skipped network si = si.metadata_sniffer || not (network_beq si.network network)

-- The end of the loops: the sniffers that are kept, and the error.
unfoldable pub give_up : Sniffer → Sniffer → Sniffer × Answer
give_up s [] = (s, (none, some unknown_content))
give_up s (si ∷ waiting) = (si ∷ waiting, (none, some no_clue))

-- The loop of `Sniff` over the sniffers left, with `pendingSniffer` so far.
unfoldable pub sniff_each : Sniffer → Network → List ℕ → Sniffer → Sniffer → Sniffer × Answer
unfolding verdict is_skipped give_up
sniff_each s network payload waiting [] = give_up s waiting
sniff_each s network payload waiting (si ∷ rest) =
    elim (if is_skipped network si then dropped else verdict (si.protocol_sniffer (some payload))) [
      | found r ↦ (s, (some r, none))
      | pending ↦ sniff_each s network payload (waiting ++ si ∷ []) rest
      | dropped ↦ sniff_each s network payload waiting rest
    ]

unfoldable pub sniff : Sniffer → Network → List ℕ → Sniffer × Answer
unfolding sniff_each
sniff s network payload = sniff_each s network payload [] s

unfoldable pub sniff_metadata_each : Sniffer → Sniffer → Sniffer → Sniffer × Answer
unfolding verdict give_up
sniff_metadata_each s waiting [] = give_up s waiting
sniff_metadata_each s waiting (si ∷ rest) =
    elim (if si.metadata_sniffer then verdict (si.protocol_sniffer none) else pending) [
      | found r ↦ (s, (some r, none))
      | pending ↦ sniff_metadata_each s (waiting ++ si ∷ []) rest
      | dropped ↦ sniff_metadata_each s waiting rest
    ]

unfoldable pub sniff_metadata : Sniffer → Sniffer × Answer
unfolding sniff_metadata_each
sniff_metadata s = sniff_metadata_each s [] s
