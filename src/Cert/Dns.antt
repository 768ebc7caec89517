-- ===== src/Cert/Dns.antt =====
-- node/lego.go: the environment that the DNS providers of the ACME client read. A variable is set for
-- the time in which the provider is built, and then restored.
pub mod Laws
use Prim.Native.Char.{code}
use ppanel_node.Base.{
  ℕ, String, Option, none, some, List, [], ◌∷◌, Bool, true, false, if◌then◌else◌, nat_beq, ◌||◌,
}
use ppanel_node.Base.Eq.{◌==◌, string_eq}
use ppanel_node.Base.Map.{Map, lookup, insert, delete}
use ppanel_node.Base.Text.{trim_space, has_prefix}
use Prim.Native.String.{◌++◌}

-- The environment of the process.
abbrev pub Env : Type 0
Env = Map String String

pub data DnsError : Type 0 where
  bad_line empty_name set_failed no_provider refused : DnsError

-- `strings.Cut(s, sep)` and `strings.Split(s, sep)` for a separator of one character, by its code.
cut_at : String → Option (String × String) → Option (String × String)
cut_at s none = none
cut_at s (some (before, after)) = some (s ++ before, after)

unfoldable pub cut : ℕ → String → Option (String × String)
unfolding cut_at
cut sep String.[] = none
cut sep (String.◌∷◌ c s) =
    let rest = cut sep s in
    if nat_beq (code c) sep then some ("", s) else cut_at (String.◌∷◌ c String.[]) rest

abbrev join_first : String → List String → List String
join_first s [] = s ∷ []
join_first s (line ∷ lines) = (s ++ line) ∷ lines

unfoldable pub split : ℕ → String → List String
split sep String.[] = "" ∷ []
split sep (String.◌∷◌ c s) =
    let rest = split sep s in
    if nat_beq (code c) sep then "" ∷ rest else join_first (String.◌∷◌ c String.[]) rest

-- `strings.TrimSuffix(line, "\r")`
unfoldable pub trim_return : String → String
trim_return String.[] = String.[]
trim_return (String.◌∷◌ c String.[]) =
    if nat_beq (code c) 13 then String.[] else String.◌∷◌ c String.[]
trim_return (String.◌∷◌ c (String.◌∷◌ d s)) =
    let rest = trim_return (String.◌∷◌ d s) in String.◌∷◌ c rest

pub data Parsed : Type 0 where
  entries : Map String String → Parsed
  invalid : DnsError → Parsed

-- The loop over the lines, with the map that is built.
unfoldable pub parse_lines : List String → Map String String → Parsed
unfolding trim_return trim_space has_prefix cut
parse_lines [] env = entries env
parse_lines (raw ∷ lines) env =
    let line = trim_return raw in
    let skipped = parse_lines lines env in
    if trim_space line == "" || has_prefix (trim_space line) "#"
    then skipped
    else elim (cut 61 line) [
      | none ↦ invalid bad_line
      | some (name, value) ↦ elim (trim_space name == "") [
        | true ↦ invalid empty_name
        | false ↦ parse_lines lines (insert (trim_space name) value env)
      ]
    ]

-- What a variable was before it was set, none if it was not there.
abbrev pub Previous : Type 0
Previous = Map String (Option String)

abbrev pub restore_one : String → Option String → Env → Env
restore_one name none env = delete name env
restore_one name (some value) env = insert name value env

-- Both loops that restore.
unfoldable pub restore : Previous → Env → Env
restore [] env = env
restore ((name, value) ∷ previous) env = restore previous (restore_one name value env)

-- The loop over the entries: the environment, what it was before, and whether a variable could not be
-- set, of which `accepts` tells.
unfoldable pub set_all :
    (String → String → Bool) → Map String String → Env → Previous → Env × Previous × Bool
unfolding restore
set_all accepts [] env previous = (env, previous, true)
set_all accepts ((name, value) ∷ rest) env previous =
    let noted = insert name (lookup name env) previous in
    let later = set_all accepts rest (insert name value env) noted in
    if accepts name value then later else (restore noted env, noted, false)

-- `applyDNSEnvironment`: the environment, and what `restore` restores or the error.
pub data Applied : Type 0 where
  applied : Previous → Applied
  not_applied : DnsError → Applied

abbrev pub as_applied : Env × Previous × Bool → Env × Applied
as_applied (env, previous, true) = (env, applied previous)
as_applied (env, previous, false) = (env, not_applied set_failed)

abbrev pub apply_parsed : (String → String → Bool) → Env → Parsed → Env × Applied
apply_parsed accepts env (invalid e) = (env, not_applied e)
apply_parsed accepts env (entries es) = as_applied (set_all accepts es env [])

unfoldable pub apply_dns_environment : (String → String → Bool) → Env → String → Env × Applied
unfolding parse_lines split set_all
apply_dns_environment accepts env raw = apply_parsed accepts env (parse_lines (split 10 raw) [])

-- What of the ACME client `SetProvider` calls. `new_provider` reads the environment.
pub record Client : Type 0 where
  pub accepts : String → String → Bool
  pub set_http : Bool
  pub new_provider : String → Env → Bool
  pub set_dns : Bool

abbrev provided : Client → String → Env → Option DnsError
provided c provider env =
    if c.new_provider provider env
    then (if c.set_dns then none else some refused)
    else some no_provider

-- The deferred restoration.
abbrev pub with_environment : Client → String → Env × Applied → Env × Option DnsError
with_environment c provider (env, not_applied e) = (env, some e)
with_environment c provider (env, applied previous) =
    (restore previous env, provided c provider env)

-- `SetProvider`
unfoldable pub set_provider : Client → Env → String → String → String → Env × Option DnsError
unfolding trim_space apply_dns_environment restore
set_provider c env mode provider raw =
    if trim_space mode == "http"
    then (env, if c.set_http then none else some refused)
    else if trim_space mode == "dns"
    then with_environment c provider (apply_dns_environment c.accepts env raw)
    else (env, none)
