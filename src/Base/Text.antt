-- ===== src/Base/Text.antt =====
-- What the program uses of Go's `strings` and `fmt` on whole texts.
use Prim.Native.Char.{Char, code, nul}
use Prim.Native.Nat.{ℕ, zero, suc, ◌/◌, ◌%◌, ◌-◌}
use mathlib.Core.Bool.{Bool, true, false, ◌&&◌, ◌||◌}
use Prim.Native.String.{String, ◌++◌}
use mathlib.Core.Path.{◌≡◌, refl}
use mathlib.Core.Option.{Option, none, some}
use mathlib.Core.List.{List, [], ◌∷◌}
use native.Mathlib.Omega.{arith}
use text.Mathlib.TextLemmas.{nil-append, cons-append}
use ppanel_node.Base.Tests.{nat_beq, ltb, leb, if◌then◌else◌}
use ppanel_node.Base.Int.{ℤ, pos, negsuc}

-- The code points of a text, its bytes if it is ASCII.
abbrev pub codes : String → List ℕ
codes String.[] = []
codes (String.◌∷◌ c s) = code c ∷ codes s

-- The text behind a prefix.
unfoldable pub strip_prefix : String → String → Option String
strip_prefix String.[] s = some s
strip_prefix (String.◌∷◌ c p) String.[] = none
strip_prefix (String.◌∷◌ c p) (String.◌∷◌ d s) =
    if nat_beq (code c) (code d) then strip_prefix p s else none

-- `strings.TrimPrefix`
unfoldable pub trim_prefix : String → String → String
unfolding strip_prefix
trim_prefix s p = elim (strip_prefix p s) [ none ↦ s | some rest ↦ rest ]

trim_mapped : trim_prefix "::ffff:10.0.0.1" "::ffff:" ≡ "10.0.0.1"
unfolding trim_prefix
trim_mapped = refl

abbrev digit : ℕ → String
digit n =
    if nat_beq n 0
    then "0"
    else if nat_beq n 1
    then "1"
    else if nat_beq n 2
    then "2"
    else if nat_beq n 3
    then "3"
    else if nat_beq n 4
    then "4"
    else if nat_beq n 5
    then "5"
    else if nat_beq n 6
    then "6"
    else if nat_beq n 7
    then "7"
    else if nat_beq n 8
    then "8"
    else "9"

-- The decimal digits; a division by ten leaves a smaller number, so `n` itself is fuel enough.
decimal : ℕ → ℕ → String
decimal zero n = digit n
decimal (suc fuel) n =
    let high = decimal fuel (n / 10) in if ltb n 10 then digit n else high ++ digit (n % 10)

-- `strconv.Itoa`
unfoldable pub itoa : ℤ → String
unfolding decimal
itoa (pos n) = decimal n n
itoa (negsuc n) = "-" ++ decimal (suc n) (suc n)

itoa_positive : itoa (pos 120) ≡ "120"
unfolding itoa
itoa_positive = refl

itoa_negative : itoa (negsuc 8) ≡ "-9"
unfolding itoa
itoa_negative = refl

unfoldable pub has_prefix : String → String → Bool
unfolding strip_prefix
has_prefix s p = elim (strip_prefix p s) [ none ↦ false | some rest ↦ true ]

-- `strings.Contains`
unfoldable pub contains : String → String → Bool
unfolding has_prefix
contains String.[] part = has_prefix String.[] part
contains (String.◌∷◌ c s) part =
    let later = contains s part in if has_prefix (String.◌∷◌ c s) part then true else later

abbrev char_at : String → ℕ → Char
char_at String.[] n = nul
char_at (String.◌∷◌ c s) zero = c
char_at (String.◌∷◌ c s) (suc n) = char_at s n

-- `unicode.ToLower` as far as its value can be an ASCII letter: besides A to Z these are the Kelvin
-- sign and the dotted capital I. Other characters stay; the lower case that Go gives them is not
-- ASCII either, and the code compares with ASCII texts only.
abbrev lower_char : Char → Char
lower_char c =
    if leb 65 (code c) && leb (code c) 90
    then char_at "abcdefghijklmnopqrstuvwxyz" (code c - 65)
    else if nat_beq (code c) 8490
    then "k"
    else if nat_beq (code c) 304
    then "i"
    else c

-- `strings.ToLower`
unfoldable pub to_lower : String → String
to_lower String.[] = String.[]
to_lower (String.◌∷◌ c s) = String.◌∷◌ (lower_char c) (to_lower s)

-- The characters for which `unicode.IsSpace` holds.
abbrev is_space : ℕ → Bool
is_space n =
    (leb 9 n && leb n 13)
    || (nat_beq n 32
        || (nat_beq n 133
            || (nat_beq n 160
                || (nat_beq n 5760
                    || ((leb 8192 n && leb n 8202)
                        || (nat_beq n 8232
                            || (nat_beq n 8233
                                || (nat_beq n 8239 || (nat_beq n 8287 || nat_beq n 12288)))))))))

trim_left : String → String
trim_left String.[] = String.[]
trim_left (String.◌∷◌ c s) =
    let rest = trim_left s in if is_space (code c) then rest else String.◌∷◌ c s

trim_right : String → String
trim_right String.[] = String.[]
trim_right (String.◌∷◌ c s) = after_trim c (trim_right s)
  where
    after_trim : Char → String → String
    after_trim c String.[] = if is_space (code c) then String.[] else String.◌∷◌ c String.[]
    after_trim c (String.◌∷◌ d s) = String.◌∷◌ c (String.◌∷◌ d s)

-- `strings.TrimSpace`
unfoldable pub trim_space : String → String
unfolding trim_left trim_right
trim_space s = trim_right (trim_left s)

trim_space_name : trim_space " tuic  " ≡ "tuic"
unfolding trim_space
trim_space_name = refl

to_lower_name : to_lower "AES-128-GCM" ≡ "aes-128-gcm"
unfolding to_lower
to_lower_name = refl

contains_part : contains "2022-blake3" "22-b" ≡ true
unfolding contains
contains_part = refl

strip_prefix-append : (p s : String) → strip_prefix p (p ++ s) ≡ some s
unfolding strip_prefix
strip_prefix-append String.[] s = rw (nil-append s) refl
strip_prefix-append (String.◌∷◌ c p) s =
    rw (cons-append c p s) (ground (arith, strip_prefix-append p s))

contains_at_front : (s part : String) → has_prefix s part ≡ true → contains s part ≡ true
unfolding contains
contains_at_front String.[] part h = h
contains_at_front (String.◌∷◌ c s) part h = rw h refl

pub contains-append_self : (part s : String) → contains (part ++ s) part ≡ true
unfolding has_prefix
contains-append_self part s =
    contains_at_front (part ++ s) part (rw (has_prefix, strip_prefix-append part s) refl)
