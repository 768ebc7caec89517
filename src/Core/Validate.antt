-- ===== src/Core/Validate.antt =====
-- core/validate.go: the checks of a server configuration before it is used. An error is a value that
-- names its message.
pub mod Laws
use ppanel_node.Base.{
  ℕ, suc, String, Option, none, some, List, [], ◌∷◌, Bool, true, false, not, ◌||◌, if◌then◌else◌,
}
use ppanel_node.Base.Eq.{◌==◌, string_eq}
use ppanel_node.Base.Int.{ℤ, pos, int_le, int_lt}
use ppanel_node.Base.Text.{trim_space, to_lower}
use ppanel_node.Panel.Protocol.{Protocol, is_supported_protocol}

pub data Problem : Type 0 where
  type_required port_range cipher_required transport_required : Problem
  cipher_unsupported transport_unsupported security_unsupported : String → Problem
  reality_key_required reality_id_required reality_sni_required reality_port_range : Problem
  tls_sni_required cert_mode_unsupported : String → Problem
  encryption_unsupported encryption_mode_unsupported : String → Problem
  encryption_mode_required encryption_ticket_required encryption_key_required : Problem

-- `none` is the nil error.
abbrev pub Check : Type 0
Check = Option Problem

abbrev is_blank : String → Bool
is_blank s = trim_space s == ""

-- `if err := first; err != nil { return err }`
abbrev pub and_then : Check → Check → Check
and_then none second = second
and_then (some e) second = some e

abbrev pub require : Bool → Problem → Check
require true e = none
require false e = some e

abbrev in_port_range : ℤ → Bool
in_port_range port = not (int_le port (pos 0) || int_lt (pos 65535) port)

unfoldable pub validate_tls_config : Protocol → Check
validate_tls_config p =
    let mode = trim_space p.cert_mode in
    if mode == "" || (mode == "none" || mode == "file")
    then none
    else if mode == "self" || (mode == "dns" || mode == "http")
    then require (not (is_blank p.sni)) (tls_sni_required p.cert_mode)
    else some (cert_mode_unsupported p.cert_mode)

unfoldable pub validate_vless_encryption : Protocol → Check
validate_vless_encryption p =
    if p.encryption == "" || p.encryption == "none"
    then none
    else and_then
        (require (p.encryption == "mlkem768x25519plus") (encryption_unsupported p.encryption))
        (and_then (require (not (is_blank p.encryption_mode)) encryption_mode_required) (
          and_then
            (require
              (p.encryption_mode == "native"
                || (p.encryption_mode == "xorpub" || p.encryption_mode == "random"))
              (encryption_mode_unsupported p.encryption_mode))
            (and_then (require (not (is_blank p.encryption_ticket)) encryption_ticket_required)
              (require (not (is_blank p.encryption_private_key)) encryption_key_required))))

unfoldable pub is_transport : String → Bool
is_transport t =
    t == "tcp"
    || (t == "ws"
        || (t == "websocket"
            || (t == "grpc" || (t == "httpupgrade" || (t == "splithttp" || t == "xhttp")))))

unfoldable pub validate_security : Protocol → Check
unfolding validate_tls_config
validate_security p =
    if p.security == "" || p.security == "none"
    then none
    else if p.security == "tls"
    then validate_tls_config p
    else if p.security == "reality"
    then and_then (require (not (is_blank p.reality_private_key)) reality_key_required) (
        and_then (require (not (is_blank p.reality_short_id)) reality_id_required) (
          and_then (require (not (is_blank p.sni)) reality_sni_required)
            (require (in_port_range p.reality_server_port) reality_port_range)))
    else some (security_unsupported p.security)

unfoldable pub validate_stream_protocol : Protocol → Check
unfolding is_transport validate_security validate_vless_encryption
validate_stream_protocol p = and_then (require (not (is_blank p.transport)) transport_required) (
    and_then (require (is_transport p.transport) (transport_unsupported p.transport)) (
      and_then (validate_security p)
        (if p.kind == "vless" then validate_vless_encryption p else none)))

unfoldable pub validate_shadowsocks : Protocol → Check
validate_shadowsocks p =
    let cipher = to_lower (trim_space p.cipher) in
    and_then (require (not (is_blank p.cipher)) cipher_required)
      (require (not (cipher == "none" || cipher == "plain")) (cipher_unsupported p.cipher))

unfoldable pub validate_kind : Protocol → Check
unfolding validate_stream_protocol validate_shadowsocks validate_tls_config
validate_kind p =
    if p.kind == "vless" || (p.kind == "vmess" || p.kind == "trojan")
    then validate_stream_protocol p
    else if p.kind == "shadowsocks"
    then validate_shadowsocks p
    else if p.kind == "tuic" || (p.kind == "hysteria" || p.kind == "hysteria2")
    then validate_tls_config p
    else none

unfoldable pub validate_protocol : Protocol → Check
unfolding validate_kind
validate_protocol p =
    if p.enable
    then and_then (require (not (is_blank p.kind)) type_required)
        (and_then (require (in_port_range p.port) port_range) (validate_kind p))
    else none

-- The loop over the protocols, with the index of the first that is refused.
unfoldable pub validate_protocols : ℕ → List Protocol → Option (ℕ × Problem)
unfolding validate_protocol is_supported_protocol
validate_protocols i [] = none
validate_protocols i (p ∷ ps) =
    let rest = validate_protocols (suc i) ps in
    if is_supported_protocol p.kind
    then elim (validate_protocol p) [ some e ↦ some (i, e) | none ↦ rest ]
    else rest

-- What the panel sent: `nil` at one of three levels, or the protocols.
pub data ServerConfig : Type 0 where
  config_nil data_nil protocols_nil : ServerConfig
  config : List Protocol → ServerConfig

pub data ServerCheck : Type 0 where
  valid missing : ServerCheck
  invalid : ℕ → Problem → ServerCheck

abbrev server_check : Option (ℕ × Problem) → ServerCheck
server_check none = valid
server_check (some (i, e)) = invalid i e

unfoldable pub validate_server_config : ServerConfig → ServerCheck
unfolding validate_protocols
validate_server_config (config ps) = server_check (validate_protocols 0 ps)
validate_server_config c = missing
