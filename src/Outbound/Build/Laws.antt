-- ===== src/Outbound/Build/Laws.antt =====
-- The outbounds have different tags, and every routing rule leads to one of them.
use ppanel_node.Base.{
  some, List, [], ◌∷◌, ◌++◌, String, Bool, true, false, ◌||◌, if◌then◌else◌, ◌≡◌, refl, inl, inr,
  arith, Bool-cases, All,
}
use ppanel_node.Base.Eq.{◌==◌, string_eq, beq_refl}
use ppanel_node.Outbound.Domains.{has, build_route_domains}
use ppanel_node.Outbound.Domains.Laws.{IsUnique}
use ppanel_node.Outbound.Settings.{
  Outbound, Settings, BuiltSettings, invalid, skipped, with_settings, build_outbound_settings,
}
use ppanel_node.Outbound.Stream.{Stream, Checked, ok, bad, build_outbound_stream_config}
use ppanel_node.Outbound.Build.{
  Detour, Rule, dns_rule, domain_rule, outbound_tag, NameServer, RoutingData, XrayConf, Built,
  built, failed, block_tag, dns_tag, default_outbounds, tags, has_outbound_with_tag, with_domains,
  Parts, add_detour, with_stream, of_settings, add_outbound, add_outbounds, initial_parts,
  BuildResult, finish_build, build, name_servers, ip_strategy_of,
}

has-append :
    (s : String) (d : Detour) (outbounds : List Detour)
    → has s (tags (outbounds ++ d ∷ [])) ≡ (has s (tags outbounds) || d.tag == s)
unfolding has
has-append s d [] = ground arith
has-append s d (o ∷ outbounds) = ground (arith, has-append s d outbounds)

append-IsUnique :
    (d : Detour) (outbounds : List Detour)
    → has d.tag (tags outbounds) ≡ false
    → IsUnique (tags outbounds)
    → IsUnique (tags (outbounds ++ d ∷ []))
unfolding has
append-IsUnique d [] new unique = (refl, tt)
append-IsUnique d (o ∷ outbounds) new (first, unique) = (
  ground (
    arith,
    has-append o.tag d outbounds,
    string_eq.beq_iff o.tag d.tag,
    string_eq.beq_iff d.tag o.tag,
  ),
  append-IsUnique d outbounds (ground arith) unique,
)

-- Every rule leads to an outbound.
abbrev pub LeadsTo : List Detour → List Rule → Type 0
LeadsTo outbounds rules = All (λ r. has (outbound_tag r) (tags outbounds) ≡ true) rules

LeadsTo-grow :
    (d : Detour) (outbounds : List Detour) (rules : List Rule)
    → LeadsTo outbounds rules
    → LeadsTo (outbounds ++ d ∷ []) rules
LeadsTo-grow d outbounds [] all = tt
LeadsTo-grow d outbounds (r ∷ rules) (h, all) =
    (ground (arith, has-append (outbound_tag r) d outbounds), LeadsTo-grow d outbounds rules all)

LeadsTo-append :
    (outbounds : List Detour) (rules : List Rule) (r : Rule)
    → has (outbound_tag r) (tags outbounds) ≡ true
    → LeadsTo outbounds rules
    → LeadsTo outbounds (rules ++ r ∷ [])
LeadsTo-append outbounds [] r h all = (h, tt)
LeadsTo-append outbounds (q ∷ rules) r h (k, all) = (k, LeadsTo-append outbounds rules r h all)

with_domains-LeadsTo :
    (outbounds : List Detour) (domains : List String) (tag : String) (rules : List Rule)
    → has tag (tags outbounds) ≡ true
    → LeadsTo outbounds rules
    → LeadsTo outbounds (with_domains domains tag rules)
with_domains-LeadsTo outbounds [] tag rules h all = all
with_domains-LeadsTo outbounds (d ∷ ds) tag rules h all =
    LeadsTo-append outbounds rules (domain_rule (d ∷ ds) tag) h all

-- What holds of the outbounds and the rules throughout the loop.
pub record IsRouted (p : Parts) : Type 0 where
  pub unique : IsUnique (tags p.0)
  pub leads : LeadsTo p.0 p.1

add_detour-IsRouted :
    (p : Parts) (domains : List String) (d : Detour)
    → IsRouted p
    → IsRouted (add_detour p domains d)
unfolding add_detour has_outbound_with_tag
add_detour-IsRouted (outbounds, rules) domains d h =
    elim (Bool-cases (has d.tag (tags outbounds))) [
      | inl taken ↦ rw taken (record {
        unique = h.unique;
        leads = with_domains-LeadsTo outbounds domains d.tag rules taken h.leads;
      })
      | inr new ↦
          let there : has d.tag (tags (outbounds ++ d ∷ [])) ≡ true =
            ground (arith, has-append d.tag d outbounds, beq_refl d.tag) in
          rw new (record {
            unique = append-IsUnique d outbounds new h.unique;
            leads =
                with_domains-LeadsTo (outbounds ++ d ∷ []) domains d.tag rules there
                  (LeadsTo-grow d outbounds rules h.leads);
          })
    ]

abbrev IsRoutedIfBuilt : Built Parts → Type 0
IsRoutedIfBuilt (built p) = IsRouted p
IsRoutedIfBuilt (failed e) = Unit {0}

with_stream-IsRouted :
    (x : XrayConf) (o : Outbound) (p : Parts) (protocol : String) (settings : Settings)
    (s : Checked Stream)
    → IsRouted p
    → IsRoutedIfBuilt (with_stream x o p protocol settings s)
with_stream-IsRouted x o p protocol settings (bad e) h = tt
with_stream-IsRouted x o p protocol settings (ok s) h =
    let d : Detour = record {
      tag = o.name;
      protocol = protocol;
      settings = some settings;
      stream_setting = s;
    } in
    elim (Bool-cases (x.builds d)) [
      | inl builds ↦ rw builds (add_detour-IsRouted p (build_route_domains o.rules) d h)
      | inr fails ↦ rw fails tt
    ]

of_settings-IsRouted :
    (x : XrayConf) (o : Outbound) (p : Parts) (b : BuiltSettings)
    → IsRouted p
    → IsRoutedIfBuilt (of_settings x o p b)
of_settings-IsRouted x o p invalid h = tt
of_settings-IsRouted x o p skipped h = h
of_settings-IsRouted x o p (with_settings protocol settings) h =
    with_stream-IsRouted x o p protocol settings (build_outbound_stream_config x.stream_json o) h

then-IsRouted :
    (x : XrayConf) (os : List Outbound) (b : Built Parts)
    → IsRoutedIfBuilt b
    → ((p : Parts) → IsRouted p → IsRoutedIfBuilt (add_outbounds x os p))
    → IsRoutedIfBuilt (elim b [ failed e ↦ failed e | built p' ↦ add_outbounds x os p' ])
then-IsRouted x os (failed e) h rest = tt
then-IsRouted x os (built p) h rest = rest p h

add_outbounds-IsRouted :
    (x : XrayConf) (os : List Outbound) (p : Parts)
    → IsRouted p
    → IsRoutedIfBuilt (add_outbounds x os p)
unfolding add_outbounds add_outbound
add_outbounds-IsRouted x [] p h = h
add_outbounds-IsRouted x (o ∷ os) p h =
    then-IsRouted x os (add_outbound x o p)
      (of_settings-IsRouted x o p (build_outbound_settings x.valid_json o) h)
      (λ p' h'. add_outbounds-IsRouted x os p' h')

initial_parts-IsRouted : (block : List String) → IsRouted (initial_parts block)
unfolding has
initial_parts-IsRouted block = record {
  unique = (refl, (refl, (refl, tt)));
  leads =
      with_domains-LeadsTo default_outbounds (build_route_domains block) block_tag
        (dns_rule dns_tag ∷ []) refl (refl, tt);
}

-- A configuration that is built.
abbrev pub IsRoutedResult : Built BuildResult → Type 0
IsRoutedResult (built r) = IsUnique (tags r.outbounds) × LeadsTo r.outbounds r.router
IsRoutedResult (failed e) = Unit {0}

finish_build-IsRouted :
    (x : XrayConf) (servers : List NameServer) (query : String) (b : Built Parts)
    → IsRoutedIfBuilt b
    → IsRoutedResult (finish_build x servers query b)
finish_build-IsRouted x servers query (failed e) h = tt
finish_build-IsRouted x servers query (built (outbounds, rules)) h =
    elim (Bool-cases (x.builds_dns servers)) [
      | inl names ↦ elim (Bool-cases (x.builds_router rules)) [
        | inl routes ↦ rw (names, routes) (h.unique, h.leads)
        | inr fails ↦ rw (names, fails) tt
      ]
      | inr fails ↦ rw fails tt
    ]

-- In a configuration that is built no two outbounds have the same tag, and every routing rule leads to
-- an outbound that is there, whatever names, rules and settings the panel sends.
pub build-IsRouted :
    (x : XrayConf) (config : RoutingData) (has_ipv6 : Bool)
    → IsRoutedResult (build x config has_ipv6)
unfolding build
build-IsRouted x config has_ipv6 =
    finish_build-IsRouted x (name_servers (ip_strategy_of config.ip_strategy has_ipv6) config.dns)
      (if has_ipv6 then "UseIPv4v6" else "UseIPv4")
      (add_outbounds x config.outbound (initial_parts config.block))
      (add_outbounds-IsRouted x config.outbound (initial_parts config.block)
        (initial_parts-IsRouted config.block))
