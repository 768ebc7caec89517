-- ===== src/Outbound/Domains.antt =====
-- core/outbound/build.go: `buildRouteDomains`, and the domains of a name server.
pub mod Laws
use ppanel_node.Base.{
  ℕ, Option, none, some, List, [], ◌∷◌, String, Bool, true, false, ◌||◌, if◌then◌else◌, nat_beq,
}
use ppanel_node.Base.Eq.{◌==◌, string_eq}
use ppanel_node.Base.Text.{trim_space}
use Prim.Native.String.{◌++◌}
use Prim.Native.Char.{code}

abbrev behind : String → Option (String × String) → Option (String × String)
behind s none = none
behind s (some (key, value)) = some (s ++ key, value)

-- `strings.SplitN(s, ":", 2)`: the text before the first colon and behind it.
unfoldable pub split_colon : String → Option (String × String)
split_colon String.[] = none
split_colon (String.◌∷◌ c s) =
    let rest = split_colon s in
    if nat_beq (code c) 58 then some ("", s) else behind (String.◌∷◌ c String.[]) rest

-- The matcher of xray-core for a kind of rule.
unfoldable pub matcher : String → String → String
matcher kind value =
    if kind == "keyword"
    then value
    else if kind == "suffix"
    then "domain:" ++ value
    else if kind == "regex"
    then "regexp:" ++ value
    else value

abbrev keyed_domain : String → String → Option String
keyed_domain kind value = if value == "" then none else some (matcher kind value)

-- What one pass through the loop of `buildRouteDomains` makes of a trimmed rule, none for `continue`.
abbrev of_split : String → Option (String × String) → Option String
of_split rule none = some ("full:" ++ rule)
of_split rule (some (kind, value)) = keyed_domain (trim_space kind) (trim_space value)

unfoldable pub route_domain : String → Option String
unfolding trim_space split_colon matcher
route_domain rule =
    if trim_space rule == ""
    then none
    else of_split (trim_space rule) (split_colon (trim_space rule))

unfoldable pub has : String → List String → Bool
has s [] = false
has s (x ∷ xs) = x == s || has s xs

-- The loop, with the values seen, which are those taken, the last first.
unfoldable pub domains_from : List String → List String → List String
unfolding route_domain has
domains_from seen [] = []
domains_from seen (rule ∷ rules) = elim (route_domain rule) [
  | none ↦ domains_from seen rules
  | some value ↦ elim (has value seen) [
    | true ↦ domains_from seen rules
    | false ↦ value ∷ domains_from (value ∷ seen) rules
  ]
]

unfoldable pub build_route_domains : List String → List String
unfolding domains_from
build_route_domains rules = domains_from [] rules

-- A domain of a name server: a rule with exactly one colon has a kind.
abbrev dns_split : String → Option (String × String) → String
dns_split item none = "full:" ++ item
dns_split item (some (kind, value)) = elim (split_colon value) [
  | none ↦ matcher kind value
  | some more ↦ "full:" ++ item
]

unfoldable pub dns_domain : String → String
unfolding split_colon matcher
dns_domain item = dns_split item (split_colon item)

unfoldable pub dns_domains : List String → List String
unfolding dns_domain
dns_domains [] = []
dns_domains (item ∷ items) = dns_domain item ∷ dns_domains items
