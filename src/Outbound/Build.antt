-- ===== src/Outbound/Build.antt =====
-- core/outbound/build.go and outbound.go: `Build`, the outbounds, the routing rules and the name servers
-- of the core. What xray-core builds of a configuration is the parameter `XrayConf`; it keeps the tag.
pub mod Laws
use ppanel_node.Base.{
  ℕ, Option, none, some, List, [], ◌∷◌, ◌++◌, String, Bool, true, false, ◌||◌, if◌then◌else◌, map,
}
use ppanel_node.Base.Eq.{◌==◌, string_eq}
use ppanel_node.Outbound.Domains.{has, build_route_domains, dns_domains}
use ppanel_node.Outbound.Settings.{
  Outbound, Settings, object, BuiltSettings, invalid, skipped, with_settings,
  build_outbound_settings,
}
use ppanel_node.Outbound.Stream.{
  Stream, no_stream, StreamError, Checked, ok, bad, build_outbound_stream_config,
}

-- An `OutboundDetourConfig`, and the handler that is built of it.
pub record Detour : Type 0 where
  pub tag : String
  pub protocol : String
  pub settings : Option Settings
  pub stream_setting : Stream

pub data Rule : Type 0 where
  dns_rule : String → Rule
  domain_rule : List String → String → Rule

abbrev pub outbound_tag : Rule → String
outbound_tag (dns_rule tag) = tag
outbound_tag (domain_rule domains tag) = tag

pub record NameServer : Type 0 where
  pub address : String
  pub query_strategy : Option String
  pub domains : List String

pub record DnsItem : Type 0 where
  pub address : String
  pub domains : List String

-- The part of `Data` that `Build` reads; the lists may be nil, which is as empty here.
pub record RoutingData : Type 0 where
  pub ip_strategy : String
  pub dns : List DnsItem
  pub block : List String
  pub outbound : List Outbound

pub record XrayConf : Type 0 where
  pub valid_json : String → Bool
  pub stream_json : String → Bool
  pub builds : Detour → Bool
  pub builds_dns : List NameServer → Bool
  pub builds_router : List Rule → Bool

pub data BuildError : Type 0 where
  invalid_settings detour_failed dns_failed router_failed : BuildError
  stream_failed : StreamError → BuildError

pub data Built {ℓ} (A : Type ℓ) : Type ℓ where
  built : A → Built A
  failed : BuildError → Built A

abbrev pub default_tag : String
default_tag = "Default"

abbrev pub block_tag : String
block_tag = "block"

abbrev pub dns_tag : String
dns_tag = "dns_out"

abbrev simple : String → String → Option Settings → Detour
simple tag protocol settings = record {
  tag = tag;
  protocol = protocol;
  settings = settings;
  stream_setting = no_stream;
}

abbrev pub default_outbounds : List Detour
default_outbounds =
    simple default_tag "freedom" (some (object []))
    ∷ simple block_tag "blackhole" none
    ∷ simple dns_tag "dns" none
    ∷ []

abbrev pub tags : List Detour → List String
tags outbounds = map (λ o. o.tag) outbounds

-- `hasOutboundWithTag`
unfoldable pub has_outbound_with_tag : List Detour → String → Bool
unfolding has
has_outbound_with_tag outbounds tag = has tag (tags outbounds)

abbrev with_domains : List String → String → List Rule → List Rule
with_domains [] tag rules = rules
with_domains (d ∷ ds) tag rules = rules ++ domain_rule (d ∷ ds) tag ∷ []

abbrev pub Parts : Type 0
Parts = List Detour × List Rule

-- A detour that is built: its rule, and the outbound unless its tag is taken.
unfoldable pub add_detour : Parts → List String → Detour → Parts
unfolding has_outbound_with_tag
add_detour (outbounds, rules) domains d = (
  if has_outbound_with_tag outbounds d.tag then outbounds else outbounds ++ d ∷ [],
  with_domains domains d.tag rules,
)

abbrev with_stream : XrayConf → Outbound → Parts → String → Settings → Checked Stream → Built Parts
with_stream x o p protocol settings (bad e) = failed (stream_failed e)
with_stream x o p protocol settings (ok s) =
    let d : Detour = record {
      tag = o.name;
      protocol = protocol;
      settings = some settings;
      stream_setting = s;
    } in
    if x.builds d
    then built (add_detour p (build_route_domains o.rules) d)
    else failed detour_failed

abbrev of_settings : XrayConf → Outbound → Parts → BuiltSettings → Built Parts
of_settings x o p invalid = failed invalid_settings
of_settings x o p skipped = built p
of_settings x o p (with_settings protocol settings) =
    with_stream x o p protocol settings (build_outbound_stream_config x.stream_json o)

-- One pass through the loop over the custom outbounds.
unfoldable pub add_outbound : XrayConf → Outbound → Parts → Built Parts
unfolding build_outbound_settings build_outbound_stream_config build_route_domains add_detour
add_outbound x o p = of_settings x o p (build_outbound_settings x.valid_json o)

unfoldable pub add_outbounds : XrayConf → List Outbound → Parts → Built Parts
unfolding add_outbound
add_outbounds x [] p = built p
add_outbounds x (o ∷ os) p = elim (add_outbound x o p) [
  | failed e ↦ failed e
  | built p' ↦ add_outbounds x os p'
]

unfoldable pub ip_strategy_of : String → Bool → String
ip_strategy_of strategy has_ipv6 =
    if strategy == ""
    then (if has_ipv6 then "UseIPv4v6" else "UseIPv4")
    else if strategy == "prefer_ipv6"
    then "UseIPv6v4"
    else "UseIPv4v6"

abbrev name_server : String → DnsItem → NameServer
name_server strategy item = record {
  address = item.address;
  query_strategy = some strategy;
  domains = dns_domains item.domains;
}

unfoldable pub name_servers : String → List DnsItem → List NameServer
unfolding dns_domains
name_servers strategy items =
    record { address = "localhost"; query_strategy = none; domains = [] }
    ∷ map (name_server strategy) items

abbrev pub initial_parts : List String → Parts
initial_parts block =
    (default_outbounds, with_domains (build_route_domains block) block_tag (dns_rule dns_tag ∷ []))

pub record BuildResult : Type 0 where
  pub dns : List NameServer
  pub query_strategy : String
  pub outbounds : List Detour
  pub router : List Rule

abbrev finish_build : XrayConf → List NameServer → String → Built Parts → Built BuildResult
finish_build x servers query (failed e) = failed e
finish_build x servers query (built (outbounds, rules)) =
    if x.builds_dns servers
    then (if x.builds_router rules
        then built (record {
          dns = servers;
          query_strategy = query;
          outbounds = outbounds;
          router = rules;
        })
        else failed router_failed)
    else failed dns_failed

unfoldable pub build : XrayConf → RoutingData → Bool → Built BuildResult
unfolding add_outbounds ip_strategy_of name_servers build_route_domains
build x config has_ipv6 =
    finish_build x (name_servers (ip_strategy_of config.ip_strategy has_ipv6) config.dns)
      (if has_ipv6 then "UseIPv4v6" else "UseIPv4")
      (add_outbounds x config.outbound (initial_parts config.block))
