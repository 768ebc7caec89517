-- ===== src/Outbound/Domains/Laws.antt =====
-- The domains of a route, as a set.
use ppanel_node.Base.{
  Option, none, some, List, [], ◌∷◌, String, Bool, true, false, ◌||◌, if◌then◌else◌, ◌≡◌, refl, sym,
  ap, ◌∙◌, inl, inr, Bool-cases, Option-cases,
}
use ppanel_node.Base.Eq.{◌==◌, string_eq, beq_refl}
use ppanel_node.Outbound.Domains.{route_domain, has, domains_from, build_route_domains}

-- Whether some rule asks for the value.
abbrev asks : String → Option String → Bool
asks s none = false
asks s (some value) = value == s

pub asked_for : String → List String → Bool
asked_for s [] = false
asked_for s (rule ∷ rules) = asks s (route_domain rule) || asked_for s rules

-- A list without repetitions.
abbrev pub IsUnique : List String → Type 0
IsUnique [] = Unit {0}
IsUnique (x ∷ xs) = (has x xs ≡ false) × IsUnique xs

old_value :
    (s value : String) (seen rules : List String)
    → has value seen ≡ true
    → has s (domains_from seen rules) ≡ (if has s seen then false else asked_for s rules)
    → has s (domains_from seen rules)
      ≡ (if has s seen then false else (value == s || asked_for s rules))
old_value s value seen rules old ih = elim (Bool-cases (value == s)) [
  | inl same ↦
      let e : value ≡ s = (string_eq.beq_iff value s).0 same in
      let seen_s : has s seen ≡ true = ap (λ v. has v seen) (sym e) ∙ old in ih ∙ rw seen_s refl
  | inr other ↦ rw other ih
]

new_value :
    (s value : String) (seen rules : List String)
    → has value seen ≡ false
    → has s (domains_from (value ∷ seen) rules)
      ≡ (if has s (value ∷ seen) then false else asked_for s rules)
    → has s (value ∷ domains_from (value ∷ seen) rules)
      ≡ (if has s seen then false else (value == s || asked_for s rules))
unfolding has
new_value s value seen rules new ih = elim (Bool-cases (value == s)) [
  | inl same ↦
      let e : value ≡ s = (string_eq.beq_iff value s).0 same in
      let unseen : has s seen ≡ false = ap (λ v. has v seen) (sym e) ∙ new in rw (same, unseen) refl
  | inr other ↦ let ih' = rw other at ih in rw other ih'
]

-- A value that was seen is not taken again; another is taken exactly if a rule asks for it.
has-domains_from :
    (s : String) (seen rules : List String)
    → has s (domains_from seen rules) ≡ (if has s seen then false else asked_for s rules)
unfolding domains_from has asked_for
has-domains_from s seen [] = elim (Bool-cases (has s seen)) [
  | inl old ↦ rw old refl
  | inr new ↦ rw new refl
]
has-domains_from s seen (rule ∷ rules) = elim (Option-cases (route_domain rule)) [
  | inl skip ↦ rw (skip, domains_from) (has-domains_from s seen rules)
  | inr (value, takes) ↦ elim (Bool-cases (has value seen)) [
    | inl old ↦
        rw (takes, domains_from, old)
          (old_value s value seen rules old (has-domains_from s seen rules))
    | inr new ↦
        rw (takes, domains_from, new)
          (new_value s value seen rules new (has-domains_from s (value ∷ seen) rules))
  ]
]

first_only :
    (value : String) (seen rules : List String)
    → has value (domains_from (value ∷ seen) rules) ≡ false
first_only value seen rules =
    has-domains_from value (value ∷ seen) rules ∙ (unfold has in rw (beq_refl value) refl)

domains_from-IsUnique : (seen rules : List String) → IsUnique (domains_from seen rules)
unfolding domains_from
domains_from-IsUnique seen [] = tt
domains_from-IsUnique seen (rule ∷ rules) = elim (Option-cases (route_domain rule)) [
  | inl skip ↦ rw (skip, domains_from) (domains_from-IsUnique seen rules)
  | inr (value, takes) ↦ elim (Bool-cases (has value seen)) [
    | inl old ↦ rw (takes, domains_from, old) (domains_from-IsUnique seen rules)
    | inr new ↦
        rw (takes, domains_from, new)
          (first_only value seen rules, domains_from-IsUnique (value ∷ seen) rules)
  ]
]

-- No domain stands twice in a route, and a domain stands in it exactly if one of the rules asks for it.
pub build_route_domains-IsUnique :
    (rules : List String)
    → IsUnique (build_route_domains rules)
      × ((s : String) → has s (build_route_domains rules) ≡ asked_for s rules)
unfolding build_route_domains
build_route_domains-IsUnique rules =
    (domains_from-IsUnique [] rules, λ s. has-domains_from s [] rules ∙ unfold has in refl)
