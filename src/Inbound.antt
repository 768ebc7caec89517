-- ===== src/Inbound.antt =====
-- core/inbound/build.go: the TLS settings and the transport of an inbound.
pub mod Laws
use ppanel_node.Base.{
  String, Option, none, some, List, [], ◌∷◌, Bool, true, false, if◌then◌else◌, ◌||◌, ◌&&◌,
}
use ppanel_node.Base.Eq.{◌==◌, string_eq}
use ppanel_node.Base.Text.{trim_space, itoa}
use ppanel_node.Panel.Protocol.{NodeInfo}
use Prim.Native.String.{◌++◌}

-- `shouldConfigureTLS`
unfoldable pub should_configure_tls : NodeInfo → Bool
unfolding trim_space
should_configure_tls info =
    let mode = trim_space info.protocol.cert_mode in
    if mode == "" || mode == "none"
    then false
    else if info.protocol.security == "tls"
    then true
    else info.kind == "tuic" || (info.kind == "hysteria" || info.kind == "hysteria2")

pub record TlsSettings : Type 0 where
  pub min_version : String
  pub curve_preferences : List String
  pub cert_file : String
  pub key_file : String
  pub alpn : Option (List String)

-- `applyTLSSettings`
unfoldable pub apply_tls_settings : NodeInfo → TlsSettings
unfolding itoa
apply_tls_settings info = record {
  min_version = "1.3";
  curve_preferences = "X25519MLKEM768" ∷ "X25519" ∷ [];
  cert_file = "/etc/PPanel-node/" ++ (info.kind ++ (itoa info.id ++ ".cer"));
  key_file = "/etc/PPanel-node/" ++ (info.kind ++ (itoa info.id ++ ".key"));
  alpn = if info.kind == "hysteria2" || info.kind == "hysteria" then some ("h3" ∷ []) else none;
}

-- The fields of a protocol that only the transport reads.
pub record TransportFields : Type 0 where
  pub accept_proxy_protocol : Bool
  pub host : String
  pub path : String
  pub service_name : String
  pub xhttp_mode : String
  pub xhttp_extra : String

pub data TransportSetting : Type 0 where
  tcp_settings : Bool → TransportSetting
  ws_settings http_upgrade_settings : String → String → Bool → TransportSetting
  grpc_settings : String → TransportSetting
  split_http_settings : String → String → String → Option String → TransportSetting

-- `buildTransportSetting`: none is its error.
unfoldable pub build_transport_setting : String → TransportFields → Option TransportSetting
build_transport_setting transport f =
    if transport == "tcp"
    then some (tcp_settings f.accept_proxy_protocol)
    else if transport == "ws" || transport == "websocket"
    then some (ws_settings f.host f.path f.accept_proxy_protocol)
    else if transport == "grpc"
    then some (grpc_settings f.service_name)
    else if transport == "httpupgrade"
    then some (http_upgrade_settings f.host f.path f.accept_proxy_protocol)
    else if transport == "splithttp" || transport == "xhttp"
    then some (
        split_http_settings f.host f.path f.xhttp_mode
          (if f.xhttp_extra == "" then none else some f.xhttp_extra))
    else none
