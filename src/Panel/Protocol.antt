-- ===== src/Panel/Protocol.antt =====
-- api/panel/server.go and node.go: the configuration of an inbound, with the fields that the modelled
-- code reads.
use ppanel_node.Base.{String, Bool, ◌||◌}
use ppanel_node.Base.Eq.{◌==◌, string_eq}
use ppanel_node.Base.Int.{ℤ}
use ppanel_node.Base.Text.{trim_space, to_lower}

pub record Protocol : Type 0 where
  pub kind : String
  pub port : ℤ
  pub enable : Bool
  pub security : String
  pub sni : String
  pub reality_server_port : ℤ
  pub reality_private_key : String
  pub reality_short_id : String
  pub transport : String
  pub cipher : String
  pub server_key : String
  pub flow : String
  pub encryption : String
  pub encryption_mode : String
  pub encryption_ticket : String
  pub encryption_private_key : String
  pub cert_mode : String

-- The protocol is never nil in a node that was made by `New`.
pub record NodeInfo : Type 0 where
  pub id : ℤ
  pub kind : String
  pub push_interval : ℤ
  pub pull_interval : ℤ
  pub traffic_report_threshold : ℤ
  pub protocol : Protocol

abbrev is_one_of_supported : String → Bool
is_one_of_supported p =
    p == "vmess"
    || (p == "trojan"
        || (p == "shadowsocks"
            || (p == "tuic"
                || (p == "hysteria" || (p == "hysteria2" || (p == "anytls" || p == "vless"))))))

unfoldable pub is_supported_protocol : String → Bool
is_supported_protocol protocol = is_one_of_supported (to_lower (trim_space protocol))
