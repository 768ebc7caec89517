-- ===== src/Cert/Dns/Laws.antt =====
-- The environment is as it was.
use ppanel_node.Base.{
  String, Option, none, some, List, [], ◌∷◌, Bool, true, false, if◌then◌else◌, ◌||◌, ◌≡◌, refl, sym,
  ◌∙◌, Bool-cases, Option-cases, inl, inr, arith, ap,
}
use ppanel_node.Base.Eq.{◌==◌, string_eq}
use ppanel_node.Base.Map.{Map, lookup, insert, lookup-insert, lookup-delete}
use ppanel_node.Base.Map.Distinct.{Distinct, insert-Distinct}
use ppanel_node.Base.Text.{trim_space, has_prefix}
use ppanel_node.Cert.Dns.{
  Env, Previous, Parsed, entries, invalid, cut, trim_return, split, parse_lines, restore_one,
  restore, set_all, as_applied, apply_parsed, apply_dns_environment, Client, with_environment,
  set_provider,
}

-- What a variable is after the restoration.
abbrev pub before : Option (Option String) → Option String → Option String
before none now = now
before (some old) now = old

lookup-restore_one :
    (name k : String) (old : Option String) (env : Env)
    → lookup k (restore_one name old env) ≡ (if name == k then old else lookup k env)
lookup-restore_one name k none env = lookup-delete name k env
lookup-restore_one name k (some v) env = lookup-insert name k v env

lookup-restore :
    (previous : Previous) (env : Env) (k : String)
    → Distinct previous
    → lookup k (restore previous env) ≡ before (lookup k previous) (lookup k env)
unfolding restore lookup
lookup-restore [] env k d = refl
lookup-restore ((name, old) ∷ previous) env k (new, d) = elim (Bool-cases (name == k)) [
  | inl hit ↦
      let e : name ≡ k = (string_eq.beq_iff name k).0 hit in
      let absent : lookup k previous ≡ none = ap (λ n. lookup n previous) (sym e) ∙ new in
      rw hit (
        lookup-restore previous (restore_one name old env) k d
        ∙ (rw absent (lookup-restore_one name k old env ∙ (rw hit refl))))
  | inr miss ↦ rw miss (
      lookup-restore previous (restore_one name old env) k d
      ∙ ap (before (lookup k previous)) (lookup-restore_one name k old env ∙ (rw miss refl)))
]

-- What is noted restores an environment.
abbrev Restores : Env → Previous → Env → Type 0
Restores original previous env =
    (k : String) → before (lookup k previous) (lookup k env) ≡ lookup k original

noted-Restores :
    (original : Env) (previous : Previous) (env : Env) (name : String)
    → lookup name previous ≡ none
    → Restores original previous env
    → Restores original (insert name (lookup name env) previous) env
noted-Restores original previous env name new h k = elim (Bool-cases (name == k)) [
  | inl hit ↦
      let e : name ≡ k = (string_eq.beq_iff name k).0 hit in
      let absent : lookup k previous ≡ none = ap (λ n. lookup n previous) (sym e) ∙ new in
      let at_k : lookup k env ≡ lookup k original = rw absent at (h k) in
      rw (lookup-insert name k (lookup name env) previous, hit, e) at_k
  | inr miss ↦ rw (lookup-insert name k (lookup name env) previous, miss) (h k)
]

set-Restores :
    (original : Env) (previous : Previous) (env : Env) (name value : String)
    → lookup name previous ≡ none
    → Restores original previous env
    → Restores original (insert name (lookup name env) previous) (insert name value env)
set-Restores original previous env name value new h k = elim (Bool-cases (name == k)) [
  | inl hit ↦
      let noted = noted-Restores original previous env name new h k in
      let noted' : lookup name env ≡ lookup k original =
        rw (lookup-insert name k (lookup name env) previous, hit) at noted in
      rw (lookup-insert name k (lookup name env) previous, hit) noted'
  | inr miss ↦
      rw (lookup-insert name k (lookup name env) previous, lookup-insert name k value env, miss)
        (h k)
]

-- The keys that are still to be set are not noted.
abbrev AreNew : Map String String → Previous → Type 0
AreNew [] previous = Unit {0}
AreNew ((name, value) ∷ rest) previous = (lookup name previous ≡ none) × AreNew rest previous

AreNew-insert :
    (rest : Map String String) (previous : Previous) (name : String) (old : Option String)
    → lookup name rest ≡ none
    → AreNew rest previous
    → AreNew rest (insert name old previous)
unfolding lookup
AreNew-insert [] previous name old absent news = tt
AreNew-insert ((other, value) ∷ rest) previous name old absent (new, news) = (
  ground (
    arith,
    lookup-insert name other old previous,
    string_eq.beq_iff name other,
    string_eq.beq_iff other name,
  ),
  AreNew-insert rest previous name old (ground arith) news,
)

abbrev IsRestorable : Env → Env × Previous × Bool → Type 0
IsRestorable original (env, previous, true) = Distinct previous × Restores original previous env
IsRestorable original (env, previous, false) = (k : String) → lookup k env ≡ lookup k original

set_all-IsRestorable :
    (accepts : String → String → Bool) (original : Env) (es : Map String String) (env : Env)
    (previous : Previous)
    → Distinct es
    → AreNew es previous
    → Distinct previous
    → Restores original previous env
    → IsRestorable original (set_all accepts es env previous)
unfolding set_all
set_all-IsRestorable accepts original [] env previous d news dp h = (dp, h)
set_all-IsRestorable accepts original ((name, value) ∷ rest) env previous (absent, d) (new, news) dp
      h =
    let noted = insert name (lookup name env) previous in
    let dn = insert-Distinct name (lookup name env) previous dp in
    elim (Bool-cases (accepts name value)) [
      | inl good ↦ rw good (
          set_all-IsRestorable accepts original rest (insert name value env) noted d
            (AreNew-insert rest previous name (lookup name env) absent news) dn
            (set-Restores original previous env name value new h))
      | inr bad ↦
          rw bad
            (λ k. lookup-restore noted env k dn ∙ noted-Restores original previous env name new h k)
    ]

abbrev IsDistinct : Parsed → Type 0
IsDistinct (entries es) = Distinct es
IsDistinct (invalid e) = Unit {0}

parse_lines-IsDistinct :
    (lines : List String) (env : Map String String)
    → Distinct env
    → IsDistinct (parse_lines lines env)
unfolding parse_lines
parse_lines-IsDistinct [] env d = d
parse_lines-IsDistinct (raw ∷ lines) env d =
    let line = trim_return raw in
    elim (Bool-cases (trim_space line == "" || has_prefix (trim_space line) "#")) [
      | inl skip ↦ rw skip (parse_lines-IsDistinct lines env d)
      | inr read ↦ elim (Option-cases (cut 61 line)) [
        | inl none_ ↦ rw (read, none_) tt
        | inr ((name, value), found) ↦ elim (Bool-cases (trim_space name == "")) [
          | inl blank ↦ rw (read, found, blank) tt
          | inr named ↦
              rw (read, found, named)
                (parse_lines-IsDistinct lines (insert (trim_space name) value env)
                  (insert-Distinct (trim_space name) value env d))
        ]
      ]
    ]

module _ (c : Client) (env : Env) (provider : String) where
  as_applied-restored :
      (r : Env × Previous × Bool)
      → IsRestorable env r
      → (k : String) → lookup k (with_environment c provider (as_applied r)).0 ≡ lookup k env
  as_applied-restored (env', previous, true) (d, h) k = lookup-restore previous env' k d ∙ h k
  as_applied-restored (env', previous, false) h k = h k

  AreNew-empty : (es : Map String String) → AreNew es []
  unfolding lookup
  AreNew-empty [] = tt
  AreNew-empty (e ∷ es) = (refl, AreNew-empty es)

  apply_parsed-restored :
      (p : Parsed)
      → IsDistinct p
      → (k : String)
      → lookup k (with_environment c provider (apply_parsed c.accepts env p)).0 ≡ lookup k env
  unfolding lookup
  apply_parsed-restored (invalid e) d k = refl
  apply_parsed-restored (entries es) d k =
      as_applied-restored (set_all c.accepts es env [])
        (set_all-IsRestorable c.accepts env es env [] d (AreNew-empty es) tt (λ j. refl)) k

  -- The environment of the process is after `SetProvider` what it was before, whether the provider is
  -- built or not, and also if a line is wrong or a variable cannot be set.
  pub set_provider_restores :
      (mode raw k : String) → lookup k (set_provider c env mode provider raw).0 ≡ lookup k env
  unfolding set_provider apply_dns_environment
  set_provider_restores mode raw k = elim (Bool-cases (trim_space mode == "http")) [
    | inl http ↦ rw http refl
    | inr a ↦ elim (Bool-cases (trim_space mode == "dns")) [
      | inl dns ↦
          rw (a, dns)
            (apply_parsed-restored (parse_lines (split 10 raw) [])
              (parse_lines-IsDistinct (split 10 raw) [] tt) k)
      | inr b ↦ rw (a, b) refl
    ]
  ]
