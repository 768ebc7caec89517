-- ===== src/SelfUpdate/Version/Laws.antt =====
-- Versions are ordered by their numbers, and a digest is 64 hexadecimal digits.
use ppanel_node.Base.{
  ℕ, zero, suc, String, Option, none, some, List, [], ◌∷◌, ◌++◌, Bool, true, false, ◌&&◌, ◌||◌,
  if◌then◌else◌, leb, nat_beq, ◌≡◌, refl, sym, ap, ◌∙◌, inl, inr, arith, All, length, map,
  Bool-cases,
}
use ppanel_node.Base.Text.{codes}
use ppanel_node.SelfUpdate.Version.{
  is_digit, is_hex, lower_hex, skip_blanks, ends_line, hex_digits, strip_codes, digest_of,
  digest_at, find_digest, parse_sha256, Version, version_lt, newer, is_newer, parse_version,
}

version_lt_irrefl : (u : Version) → version_lt u u ≡ false
unfolding version_lt
version_lt_irrefl (a, b, c) = ground arith

version_lt_trans :
    (u v w : Version) → version_lt u v ≡ true → version_lt v w ≡ true → version_lt u w ≡ true
unfolding version_lt
version_lt_trans (a, b, c) (x, y, z) (p, q, r) h k = ground arith

newer_trans : (u v w : Option Version) → newer u v ≡ true → newer v w ≡ true → newer u w ≡ true
newer_trans u v none h k = k
newer_trans u none (some w) h k = cc
newer_trans none (some v) (some w) h k = refl
newer_trans (some u) (some v) (some w) h k = version_lt_trans u v w h k

newer_irrefl : (u : Option Version) → newer u u ≡ false
newer_irrefl none = refl
newer_irrefl (some u) = version_lt_irrefl u

-- `IsNewer` is a strict order on all texts, those that are no versions included: nothing is newer than
-- itself, and what is newer than something newer is newer.
pub is_newer-IsOrder :
    (u v w : String)
    → (is_newer u u ≡ false) × (is_newer u v ≡ true → is_newer v w ≡ true → is_newer u w ≡ true)
unfolding is_newer
is_newer-IsOrder u v w = (
  newer_irrefl (parse_version u),
  λ h k. newer_trans (parse_version u) (parse_version v) (parse_version w) h k,
)

abbrev pub IsLowerHex : ℕ → Type 0
IsLowerHex c = (is_digit c || (leb 97 c && leb c 102)) ≡ true

lower_hex-IsLowerHex : (c : ℕ) → is_hex c ≡ true → IsLowerHex (lower_hex c)
lower_hex-IsLowerHex c h = ground arith

-- What a text that is taken for a digest looks like.
abbrev pub IsDigest : ℕ → Option (List ℕ) → Type 0
IsDigest n none = Unit {0}
IsDigest n (some ds) = (length ds ≡ n) × All IsLowerHex ds

cons-IsDigest :
    (c n : ℕ) (o : Option (List ℕ))
    → is_hex c ≡ true
    → IsDigest n o
    → IsDigest (suc n) (elim o [ none ↦ none | some ds ↦ some (lower_hex c ∷ ds) ])
cons-IsDigest c n none h d = tt
cons-IsDigest c n (some ds) h (len, all) = (ap suc len, (lower_hex-IsLowerHex c h, all))

hex_digits-IsDigest : (n : ℕ) (s : List ℕ) → IsDigest n (hex_digits n s)
unfolding hex_digits
hex_digits-IsDigest zero s = elim (Bool-cases (ends_line s)) [
  | inl end ↦ rw (end, hex_digits) (refl, tt)
  | inr more ↦ rw (more, hex_digits) tt
]
hex_digits-IsDigest (suc n) [] = tt
hex_digits-IsDigest (suc n) (c ∷ s) = elim (Bool-cases (is_hex c)) [
  | inl hex ↦ rw hex (cons-IsDigest c n (hex_digits n s) hex (hex_digits-IsDigest n s))
  | inr other ↦ rw other tt
]

digest_of-IsDigest : (o : Option (List ℕ)) → IsDigest 64 (digest_of o)
digest_of-IsDigest none = tt
digest_of-IsDigest (some s) = hex_digits-IsDigest 64 (skip_blanks s)

first-IsDigest :
    (n : ℕ) (o rest : Option (List ℕ))
    → IsDigest n o
    → IsDigest n rest
    → IsDigest n (elim o [ some ds ↦ some ds | none ↦ rest ])
first-IsDigest n none rest d d' = d'
first-IsDigest n (some ds) rest d d' = d

guarded-IsDigest :
    (n : ℕ) (b : Bool) (o : Option (List ℕ)) → IsDigest n o → IsDigest n (if b then o else none)
guarded-IsDigest n true o d = d
guarded-IsDigest n false o d = tt

find_digest-IsDigest : (at_line : Bool) (s : List ℕ) → IsDigest 64 (find_digest at_line s)
unfolding find_digest digest_at
find_digest-IsDigest at_line [] = tt
find_digest-IsDigest at_line (c ∷ s) =
    first-IsDigest 64 (if at_line then digest_at (c ∷ s) else none) (find_digest (nat_beq c 10) s)
      (guarded-IsDigest 64 at_line (digest_at (c ∷ s))
        (digest_of-IsDigest (strip_codes (codes "SHA2-256=") (c ∷ s))))
      (find_digest-IsDigest (nat_beq c 10) s)

-- Whatever stands in a digest file, what is taken from it is 64 hexadecimal digits in lower case.
pub parse_sha256-IsDigest : (dgst : List ℕ) → IsDigest 64 (parse_sha256 dgst)
unfolding parse_sha256
parse_sha256-IsDigest dgst = find_digest-IsDigest true dgst

hex_digits_complete :
    (hex rest : List ℕ)
    → All (λ c. is_hex c ≡ true) hex
    → hex_digits (length hex) (hex ++ (10 ∷ rest)) ≡ some (map lower_hex hex)
unfolding hex_digits
hex_digits_complete [] rest all = refl
hex_digits_complete (c ∷ hex) rest (h, all) = rw (h, hex_digits_complete hex rest all) refl

skip_blanks_hex : (c : ℕ) (s : List ℕ) → is_hex c ≡ true → skip_blanks (c ∷ s) ≡ c ∷ s
unfolding skip_blanks
skip_blanks_hex c s h = ground arith

digest_at_line :
    (c : ℕ) (hex rest : List ℕ)
    → length hex ≡ 63
    → All (λ d. is_hex d ≡ true) (c ∷ hex)
    → digest_at (codes "SHA2-256= " ++ ((c ∷ hex) ++ (10 ∷ rest))) ≡ some (map lower_hex (c ∷ hex))
unfolding digest_at strip_codes skip_blanks
digest_at_line c hex rest len all =
    ap (hex_digits 64) (skip_blanks_hex c (hex ++ (10 ∷ rest)) all.0)
    ∙ (ap (λ n. hex_digits n ((c ∷ hex) ++ (10 ∷ rest))) (sym (ap suc len))
        ∙ hex_digits_complete (c ∷ hex) rest all)

find_digest_here :
    (c : ℕ) (s ds : List ℕ) → digest_at (c ∷ s) ≡ some ds → find_digest true (c ∷ s) ≡ some ds
unfolding find_digest
find_digest_here c s ds h = rw (h, find_digest) refl

-- The digest line that OpenSSL writes is read back, in lower case.
pub parse_sha256_line :
    (c : ℕ) (hex rest : List ℕ)
    → length hex ≡ 63
    → All (λ d. is_hex d ≡ true) (c ∷ hex)
    → parse_sha256 (codes "SHA2-256= " ++ ((c ∷ hex) ++ (10 ∷ rest)))
      ≡ some (map lower_hex (c ∷ hex))
unfolding parse_sha256
parse_sha256_line c hex rest len all =
    find_digest_here 83 (codes "HA2-256= " ++ ((c ∷ hex) ++ (10 ∷ rest))) (map lower_hex (c ∷ hex))
      (digest_at_line c hex rest len all)
