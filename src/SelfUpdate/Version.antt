-- ===== src/SelfUpdate/Version.antt =====
-- internal/selfupdate/selfupdate.go: versions, digests, and what to switch to.
pub mod Laws
use ppanel_node.Base.{
  ℕ, zero, suc, ◌+◌, ◌-◌, ◌*◌, ◌^◌, String, Option, none, some, List, [], ◌∷◌, Bool, true, false,
  not, ◌&&◌, ◌||◌, if◌then◌else◌, ltb, leb, nat_beq,
}
use ppanel_node.Base.Eq.{◌==◌, string_eq}
use ppanel_node.Base.Map.{Map, lookup}
use ppanel_node.Base.Text.{codes, trim_space}
use Prim.Native.String.{◌++◌}

-- The table of friendly-filenames.json, embedded in the binary, is an argument.
abbrev asset_of : Option String → Option String
asset_of none = none
asset_of (some friendly) =
    if friendly == "" then none else some ("ppanel-node-" ++ (friendly ++ ".zip"))

unfoldable pub asset_name : Map String String → String → String → String → Option String
asset_name table goos goarch goarm = asset_of (lookup (goos ++ ("-" ++ (goarch ++ goarm))) table)

abbrev pub is_digit : ℕ → Bool
is_digit c = leb 48 c && leb c 57

abbrev pub is_hex : ℕ → Bool
is_hex c = is_digit c || ((leb 65 c && leb c 70) || (leb 97 c && leb c 102))

-- `\s` of a regular expression.
abbrev is_blank : ℕ → Bool
is_blank c = nat_beq c 32 || ((leb 9 c && leb c 10) || (leb 12 c && leb c 13))

-- A byte of a hexadecimal digest in lower case.
abbrev pub lower_hex : ℕ → ℕ
lower_hex c = if leb 65 c && leb c 90 then c + 32 else c

skip_blanks : List ℕ → List ℕ
skip_blanks [] = []
skip_blanks (c ∷ s) = let rest = skip_blanks s in if is_blank c then rest else c ∷ s

-- `\s*$` in multi-line mode: blanks up to the end of a line or of the text.
ends_line : List ℕ → Bool
ends_line [] = true
ends_line (c ∷ s) = let rest = ends_line s in if nat_beq c 10 then true else is_blank c && rest

-- `n` digits and the end of the line, in lower case.
unfoldable pub hex_digits : ℕ → List ℕ → Option (List ℕ)
unfolding ends_line
hex_digits zero s = if ends_line s then some [] else none
hex_digits (suc n) [] = none
hex_digits (suc n) (c ∷ s) =
    let rest = hex_digits n s in
    if is_hex c then elim rest [ none ↦ none | some ds ↦ some (lower_hex c ∷ ds) ] else none

strip_codes : List ℕ → List ℕ → Option (List ℕ)
strip_codes [] s = some s
strip_codes (p ∷ ps) [] = none
strip_codes (p ∷ ps) (c ∷ s) = if nat_beq p c then strip_codes ps s else none

abbrev digest_of : Option (List ℕ) → Option (List ℕ)
digest_of none = none
digest_of (some s) = hex_digits 64 (skip_blanks s)

-- A match of the whole expression at the start of a line.
unfoldable pub digest_at : List ℕ → Option (List ℕ)
unfolding strip_codes skip_blanks hex_digits
digest_at s = digest_of (strip_codes (codes "SHA2-256=") s)

unfoldable pub find_digest : Bool → List ℕ → Option (List ℕ)
unfolding digest_at
find_digest at_line [] = none
find_digest at_line (c ∷ s) =
    let rest = find_digest (nat_beq c 10) s in
    elim (if at_line then digest_at (c ∷ s) else none) [ some ds ↦ some ds | none ↦ rest ]

-- `ParseSHA256`, `none` for the error.
unfoldable pub parse_sha256 : List ℕ → Option (List ℕ)
unfolding find_digest
parse_sha256 dgst = find_digest true dgst

-- `(\d+)`: the digits in front, as their value so far and how many there are.
digits : ℕ → ℕ → List ℕ → ℕ × ℕ × List ℕ
digits value count [] = (value, count, [])
digits value count (c ∷ s) =
    let rest = digits (value * 10 + (c - 48)) (count + 1) s in
    if is_digit c then rest else (value, count, c ∷ s)

-- `strconv.Atoi` refuses what is no `int`.
abbrev in_int : ℕ → Bool
in_int n = ltb n (2 ^ 63)

abbrev nonempty_int : ℕ × ℕ × List ℕ → Option (ℕ × List ℕ)
nonempty_int (value, zero, s) = none
nonempty_int (value, suc count, s) = some (value, s)

unfoldable pub number : List ℕ → Option (ℕ × List ℕ)
unfolding digits
number s = nonempty_int (digits 0 0 s)

abbrev after_dot : List ℕ → Option (List ℕ)
after_dot [] = none
after_dot (c ∷ s) = if nat_beq c 46 then some s else none

infixl 5 ◌>>=◌
abbrev ◌>>=◌ : {A B : Type 0} → Option A → (A → Option B) → Option B
none >>= f = none
some a >>= f = f a

abbrev drop_v : List ℕ → List ℕ
drop_v [] = []
drop_v (c ∷ s) = if nat_beq c 118 then s else c ∷ s

abbrev pub Version : Type 0
Version = ℕ × ℕ × ℕ

abbrev checked_version : ℕ → ℕ → ℕ → Option Version
checked_version x y z = if in_int x && (in_int y && in_int z) then some (x, y, z) else none

unfoldable pub parse_version : String → Option Version
unfolding number trim_space
parse_version v = do
  (x, s) ← number (drop_v (codes (trim_space v)))
  s ← after_dot s
  (y, s) ← number s
  s ← after_dot s
  (z, s) ← number s
  checked_version x y z

-- The loop over the three parts.
unfoldable pub version_lt : Version → Version → Bool
version_lt (a, b, c) (x, y, z) =
    if not (nat_beq x a) then ltb a x else if not (nat_beq y b) then ltb b y else ltb c z

abbrev newer : Option Version → Option Version → Bool
newer current none = false
newer none (some n) = true
newer (some c) (some n) = version_lt c n

unfoldable pub is_newer : String → String → Bool
unfolding parse_version version_lt
is_newer current candidate = newer (parse_version current) (parse_version candidate)

abbrev pub default_repo : String
default_repo = "phenix3443/ppanel-node"

unfoldable pub resolve_repo : String → String → String
unfolding trim_space
resolve_repo flag_value config_value =
    if trim_space flag_value == ""
    then (if trim_space config_value == "" then default_repo else trim_space config_value)
    else trim_space flag_value

unfoldable pub should_switch_version : String → String → Bool
unfolding trim_space
should_switch_version current target =
    if trim_space target == "" then false else not (trim_space current == trim_space target)
