-- ===== src/Tuic/Reader.antt =====
-- `io.Reader` over bytes that are all there, as a parser, and the big-endian numbers of
-- encoding/binary. A byte is a number below 256.
use ppanel_node.Base.{
  ℕ, ◌+◌, ◌*◌, ◌/◌, ◌%◌, ◌<◌, ◌≡◌, refl, List, [], ◌∷◌, ◌++◌, arith, ltb, if◌then◌else◌, length,
  take, drop, length-append, take-append_left, drop-append_left,
}

-- io.EOF, io.ErrUnexpectedEOF, io.ErrShortBuffer
pub data Error : Type 0 where
  eof unexpected_eof short_buffer : Error

pub data Result {ℓ} (A : Type ℓ) : Type ℓ where
  ok : A → Result A
  err : Error → Result A

-- A parser returns its value and the bytes that are left.
abbrev pub Read {ℓ} : Type ℓ → Type ℓ
Read A = List ℕ → Result (A × List ℕ)

abbrev pub continue {ℓ κ} :
    {A : Type ℓ} {B : Type κ} → Result (A × List ℕ) → (A → Read B) → Result (B × List ℕ)
continue (ok (a, rest)) f = f a rest
continue (err e) f = err e

infixl 5 ◌>>=◌
abbrev pub ◌>>=◌ {ℓ κ} : {A : Type ℓ} {B : Type κ} → Read A → (A → Read B) → Read B
◌>>=◌ m f bytes = continue (m bytes) f

abbrev pub pure {ℓ} : {A : Type ℓ} → A → Read A
pure a bytes = ok (a, bytes)

abbrev pub fail {ℓ} : {A : Type ℓ} → Error → Read A
fail e bytes = err e

-- `io.ReadFull` into a buffer of `n` bytes
unfoldable pub read_full : ℕ → Read (List ℕ)
read_full n [] = if ltb 0 n then err eof else ok ([], [])
read_full n (b ∷ bs) =
    if ltb (length (b ∷ bs)) n then err unexpected_eof else ok (take n (b ∷ bs), drop n (b ∷ bs))

abbrev head_or_zero : List ℕ → ℕ
head_or_zero [] = 0
head_or_zero (b ∷ bs) = b

abbrev big_endian : List ℕ → ℕ
big_endian (hi ∷ lo ∷ []) = hi * 256 + lo
big_endian bytes = 0

-- `binary.Read` of a `uint8` and of a big-endian `uint16`
unfoldable pub read_u8 : Read ℕ
read_u8 = read_full 1 >>= λ b. pure (head_or_zero b)

unfoldable pub read_u16 : Read ℕ
read_u16 = read_full 2 >>= λ b. pure (big_endian b)

-- `binary.Write` of a big-endian `uint16`
unfoldable pub write_u16 : ℕ → List ℕ
write_u16 n = (n / 256 % 256) ∷ (n % 256) ∷ []

pub read_full-append : (xs rest : List ℕ) → read_full (length xs) (xs ++ rest) ≡ ok (xs, rest)
unfolding read_full
read_full-append [] [] = refl
read_full-append [] (r ∷ rest) = ground arith
read_full-append (b ∷ bs) rest =
    ground (arith, length-append bs rest, take-append_left bs rest, drop-append_left bs rest)

pub read_u8-cons : (b : ℕ) (rest : List ℕ) → read_u8 (b ∷ rest) ≡ ok (b, rest)
unfolding read_u8 read_full
read_u8-cons b rest = ground arith

pub read_u16-write :
    (n : ℕ) (rest : List ℕ) → n < 65536 → read_u16 (write_u16 n ++ rest) ≡ ok (n, rest)
unfolding read_u16 write_u16 read_full
read_u16-write n rest h = ground arith

pub length-write_u16 : (n : ℕ) → length (write_u16 n) ≡ 2
unfolding write_u16
length-write_u16 n = refl
