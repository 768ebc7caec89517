-- ===== src/Outbound/Stream.antt =====
-- core/outbound/build.go: `buildOutboundStreamConfig`, the transport and the security of an outbound.
use ppanel_node.Base.{Option, none, some, String, Bool, ◌||◌, ◌&&◌, if◌then◌else◌}
use ppanel_node.Base.Eq.{◌==◌, string_eq}
use ppanel_node.Base.Text.{trim_space, to_lower}
use ppanel_node.Outbound.Settings.{Outbound, normalize_outbound_protocol, first_non_empty}

pub data SecuritySettings : Type 0 where
  plain : SecuritySettings
  tls : String → Bool → String → SecuritySettings
  reality : String → String → String → String → String → SecuritySettings

pub data TransportSettings : Type 0 where
  bare tcp : TransportSettings
  ws grpc http_upgrade split_http : String → String → TransportSettings
  hysteria : String → TransportSettings

pub record StreamConfig : Type 0 where
  pub network : Option String
  pub security : String
  pub security_settings : SecuritySettings
  pub transport_settings : TransportSettings

-- A stream that the panel gives as JSON is kept as it is.
pub data Stream : Type 0 where
  no_stream : Stream
  raw_stream : String → Stream
  stream : StreamConfig → Stream

pub data StreamError : Type 0 where
  invalid_stream_json unsupported_security unsupported_transport : StreamError

pub data Checked {ℓ} (A : Type ℓ) : Type ℓ where
  ok : A → Checked A
  bad : StreamError → Checked A

infixl 5 ◌>>=◌
abbrev pub ◌>>=◌ {ℓ κ} : {A : Type ℓ} {B : Type κ} → Checked A → (A → Checked B) → Checked B
ok a >>= f = f a
bad e >>= f = bad e

abbrev default_transport : String → String
default_transport protocol =
    if protocol == "vmess"
      || (protocol == "vless" || (protocol == "trojan" || protocol == "anytls"))
    then "tcp"
    else if protocol == "tuic"
    then "tuic"
    else if protocol == "hysteria"
    then "hysteria"
    else ""

unfoldable pub transport_of : Outbound → String
unfolding to_lower trim_space normalize_outbound_protocol
transport_of o =
    let transport = to_lower (trim_space o.transport) in
    if transport == ""
    then default_transport (normalize_outbound_protocol o.protocol)
    else transport

abbrev is_blank : String → Bool
is_blank s = trim_space s == ""

-- `!hasStreamField`
unfoldable pub lacks_stream_field : String → String → Outbound → Bool
unfolding trim_space
lacks_stream_field transport security o =
    (transport == "" && security == "")
    && ((is_blank o.sni && is_blank o.fingerprint)
        && ((is_blank o.host && is_blank o.path)
            && (is_blank o.service_name
                && (is_blank o.reality_public_key && is_blank o.reality_short_id))))

unfoldable pub security_of : String → Outbound → Checked SecuritySettings
unfolding trim_space first_non_empty
security_of security o =
    if security == "" || security == "none"
    then ok plain
    else if security == "tls"
    then ok (tls (trim_space o.sni) o.allow_insecure (first_non_empty o.fingerprint "chrome"))
    else if security == "reality"
    then ok (
        reality (trim_space o.sni) (trim_space o.reality_public_key) (trim_space o.reality_short_id)
          (first_non_empty o.fingerprint "chrome") (first_non_empty o.spider_x "/"))
    else bad unsupported_security

unfoldable pub transport_settings_of : String → Outbound → Checked TransportSettings
unfolding trim_space first_non_empty
transport_settings_of transport o =
    if transport == ""
    then ok bare
    else if transport == "tcp" || transport == "raw"
    then ok tcp
    else if transport == "ws" || transport == "websocket"
    then ok (ws (trim_space o.host) (trim_space o.path))
    else if transport == "grpc"
    then ok (grpc (trim_space o.host) (trim_space o.service_name))
    else if transport == "httpupgrade"
    then ok (http_upgrade (trim_space o.host) (trim_space o.path))
    else if transport == "splithttp" || transport == "xhttp"
    then ok (split_http (trim_space o.host) (trim_space o.path))
    else if transport == "hysteria"
    then ok (hysteria (first_non_empty o.password o.uuid))
    else if transport == "tuic"
    then ok bare
    else bad unsupported_transport

abbrev network_of : String → Option String
network_of transport = if transport == "" then none else some transport

abbrev built_stream : String → String → Outbound → Checked Stream
built_stream transport security o = do
  s ← security_of security o
  t ← transport_settings_of transport o
  ok (
      stream (record {
        network = network_of transport;
        security = security;
        security_settings = s;
        transport_settings = t;
      }))

-- `stream_json` tells whether a text can be decoded as a stream configuration.
unfoldable pub build_outbound_stream_config : (String → Bool) → Outbound → Checked Stream
unfolding transport_of lacks_stream_field security_of transport_settings_of
build_outbound_stream_config stream_json o =
    let transport = transport_of o in
    let security = to_lower (trim_space o.security) in
    if trim_space o.stream_settings == ""
    then (if lacks_stream_field transport security o
        then ok no_stream
        else built_stream transport security o)
    else if stream_json (trim_space o.stream_settings)
    then ok (raw_stream (trim_space o.stream_settings))
    else bad invalid_stream_json
