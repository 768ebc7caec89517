-- ===== src/Outbound/Examples.antt =====
-- A configuration with two custom outbounds of one name.
use ppanel_node.Base.{◌≡◌, String, [], ◌∷◌, true, false, refl}
use ppanel_node.Base.Int.{pos}
use ppanel_node.Base.Text.{trim_space}
use ppanel_node.Outbound.Domains.{
  has, build_route_domains, domains_from, route_domain, split_colon, matcher, dns_domain,
}
use ppanel_node.Outbound.Domains.Laws.{IsUnique, asked_for, build_route_domains-IsUnique}
use ppanel_node.Outbound.Settings.{Outbound}
use ppanel_node.Outbound.Build.{RoutingData, XrayConf, build}
use ppanel_node.Outbound.Build.Laws.{IsRoutedResult, build-IsRouted}

abbrev warp : Outbound
warp = record {
  name = "warp";
  protocol = "direct";
  address = "";
  port = pos 0;
  user = "";
  password = "";
  uuid = "";
  cipher = "";
  security = "";
  sni = "";
  allow_insecure = false;
  fingerprint = "";
  transport = "";
  host = "";
  path = "";
  service_name = "";
  flow = "";
  uot = false;
  uot_version = pos 0;
  congestion_controller = "";
  udp_stream = false;
  reduce_rtt = false;
  heartbeat = pos 0;
  reality_public_key = "";
  reality_short_id = "";
  spider_x = "";
  settings = "";
  stream_settings = "";
  rules = "suffix:example.org" ∷ "example.net" ∷ " suffix: example.org" ∷ [];
}

abbrev xray : XrayConf
xray = record {
  valid_json = λ s. true;
  stream_json = λ s. true;
  builds = λ d. true;
  builds_dns = λ servers. true;
  builds_router = λ rules. true;
}

abbrev config : RoutingData
config = record {
  ip_strategy = "";
  dns = [];
  block = "keyword:ads" ∷ [];
  outbound = warp ∷ warp ∷ [];
}

-- A rule that is repeated counts once.
two_domains : build_route_domains warp.rules ≡ "domain:example.org" ∷ "full:example.net" ∷ []
unfolding build_route_domains domains_from route_domain has split_colon matcher trim_space
two_domains = refl

-- Behind a second colon the kind of a name server's domain is not read.
regex_with_colon : dns_domain "regex:a:b" ≡ "full:regex:a:b"
unfolding dns_domain split_colon matcher
regex_with_colon = refl

build_route_domains-IsUnique_example :
    IsUnique (build_route_domains warp.rules)
    × ((s : String) → has s (build_route_domains warp.rules) ≡ asked_for s warp.rules)
build_route_domains-IsUnique_example = build_route_domains-IsUnique warp.rules

build-IsRouted_example : IsRoutedResult (build xray config true)
build-IsRouted_example = build-IsRouted xray config true
