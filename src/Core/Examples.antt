-- ===== src/Core/Examples.antt =====
-- The theorems on the core package at concrete inputs.
use ppanel_node.Base.{
  ℕ, ◌≡◌, ◌≤◌, refl, String, none, List, [], ◌∷◌, true, false, if◌then◌else◌, arith, All, length,
}
use ppanel_node.Base.Eq.{string_eq}
use ppanel_node.Base.Int.{pos}
use ppanel_node.Base.Map.{lookup}
use ppanel_node.Base.Text.{trim_space, to_lower}
use ppanel_node.Panel.Types.{UserInfo}
use ppanel_node.Panel.Format.{user_tag}
use ppanel_node.Panel.Protocol.{Protocol, NodeInfo, is_supported_protocol}
use ppanel_node.Limiter.Users.{has_uuid}
use ppanel_node.Core.Accounts.{
  tuic, ProtocolUser, built, build_users, build_each, build_tuic_user, bytes_of, user_of,
  unsupported,
}
use ppanel_node.Core.Users.{UserManagers, Core, del_each, del_users}
use ppanel_node.Core.Users.Laws.{IsClosed, del_users-uid}
use ppanel_node.Core.Validate.{
  validate_protocol, validate_protocols, validate_kind, validate_stream_protocol, validate_security,
  validate_tls_config, is_transport, config, valid, validate_server_config,
}
use ppanel_node.Core.Validate.Laws.{IsUsed, validate_server_config-port}

-- User managers as the lists of their emails; every operation succeeds.
abbrev test_managers : UserManagers
test_managers = record {
  State = List String;
  has_manager = λ s tag. true;
  remove_user = λ s tag email. (s, false);
  add_user = λ s tag p. (p.email ∷ s, false);
  is_usable = λ p. true;
}

abbrev alice : UserInfo
alice = record {
  id = pos 7;
  uuid = "a1b2c3d4-0000-1111-2222-333344445555";
  speed_limit = pos 0;
  device_limit = pos 0;
}

abbrev tuic_protocol : Protocol
tuic_protocol = record {
  kind = "tuic";
  port = pos 443;
  enable = true;
  security = "tls";
  sni = "example.com";
  reality_server_port = pos 0;
  reality_private_key = "";
  reality_short_id = "";
  transport = "tcp";
  cipher = "";
  server_key = "";
  flow = "";
  encryption = "";
  encryption_mode = "";
  encryption_ticket = "";
  encryption_private_key = "";
  cert_mode = "file";
}

abbrev tuic_info : NodeInfo
tuic_info = record {
  id = pos 1;
  kind = "tuic";
  push_interval = pos 60;
  pull_interval = pos 60;
  traffic_report_threshold = pos 0;
  protocol = tuic_protocol;
}

abbrev core : Core test_managers
core = record {
  managers = [];
  uid_map = (user_tag "in" alice.uuid, pos 7) ∷ [];
  counters = [];
  link_managers = (user_tag "in" alice.uuid, (1, 2) ∷ []) ∷ [];
  closed = [];
}

deleted_without_error : (del_users test_managers core (alice ∷ []) "in").1 ≡ false
unfolding del_users del_each
deleted_without_error = refl

del_users-uid_example :
    (lookup (user_tag "in" alice.uuid) (del_users test_managers core (alice ∷ []) "in").0.uid_map
      ≡ (if has_uuid alice.uuid (alice ∷ [])
          then none
          else lookup (user_tag "in" alice.uuid) core.uid_map))
    × (lookup
          (user_tag "in" alice.uuid)
          (del_users test_managers core (alice ∷ []) "in").0.link_managers
        ≡ (if has_uuid alice.uuid (alice ∷ [])
            then none
            else lookup (user_tag "in" alice.uuid) core.link_managers))
    × IsClosed test_managers "in" alice.uuid core
        (has_uuid alice.uuid (alice ∷ []))
        (del_users test_managers core (alice ∷ []) "in").0
del_users-uid_example =
    del_users-uid test_managers "in" alice.uuid core (alice ∷ []) deleted_without_error

abbrev alice_user : ProtocolUser
alice_user = user_of "in" alice (tuic alice.uuid alice.uuid)

alice_built : build_users "tuic" "" "" "" "in" (alice ∷ []) ≡ built (alice_user ∷ [])
unfolding build_users build_each build_tuic_user
alice_built = refl

long_uuid : All (λ u. 32 ≤ length (bytes_of u.uuid)) (alice ∷ [])
unfolding bytes_of
long_uuid = (omega arith, tt)

tuic_valid : validate_server_config (config (tuic_protocol ∷ [])) ≡ valid
unfolding validate_server_config validate_protocols validate_protocol validate_kind
    validate_tls_config is_supported_protocol trim_space to_lower
tuic_valid = refl

validate_server_config-port_example :
    All
      (λ (p : Protocol). IsUsed p → (n : ℕ) × (p.port ≡ pos n) × (1 ≤ n) × (n ≤ 65535))
      (tuic_protocol ∷ [])
validate_server_config-port_example = validate_server_config-port (tuic_protocol ∷ []) tuic_valid

abbrev vmess_protocol : Protocol
vmess_protocol = record tuic_protocol { kind = "vmess" }

vmess_valid : validate_protocol vmess_protocol ≡ none
unfolding validate_protocol validate_kind validate_stream_protocol validate_security is_transport
    validate_tls_config trim_space
vmess_valid = refl

-- A type in upper case is supported and accepted, its transport is not looked at, and no user can be
-- built for it.
abbrev upper_case : Protocol
upper_case = record tuic_protocol { kind = "VLESS"; transport = "smoke signals" }

upper_case_accepted : validate_server_config (config (upper_case ∷ [])) ≡ valid
unfolding validate_server_config validate_protocols validate_protocol validate_kind
    validate_tls_config is_supported_protocol trim_space to_lower
upper_case_accepted = refl

upper_case_unsupported : build_users "VLESS" "" "" "" "in" (alice ∷ []) ≡ unsupported
unfolding build_users
upper_case_unsupported = refl
