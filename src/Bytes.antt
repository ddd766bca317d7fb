-- ===== src/Bytes.antt =====
-- Byte slices as lists of numbers, and the fixed-width little-endian words of Go's
-- encoding/binary (binary.LittleEndian), which every on-wire and on-disk layout uses.

pub mod Window
pub mod Field
pub mod Splice
pub mod Bits
use horreum.Common.{
  ℕ, ◌+◌, ◌-◌, ◌*◌, ◌/◌, ◌%◌, ◌^◌, ◌≡◌, refl, Bool, true, false, ◌&&◌, List, [], ◌∷◌, ◌++◌, arith,
  ◌==◌, take, drop, ◌<◌, length,
}

abbrev pub Bytes : Type 0
Bytes = List ℕ

-- The conversions uint8(x), uint16(x), uint32(x), uint64(x).
abbrev pub uint8 : ℕ → ℕ
uint8 n = n % 2 ^ 8

abbrev pub uint16 : ℕ → ℕ
uint16 n = n % 2 ^ 16

abbrev pub uint32 : ℕ → ℕ
uint32 n = n % 2 ^ 32

abbrev pub uint64 : ℕ → ℕ
uint64 n = n % 2 ^ 64

-- PutUint16, PutUint32, PutUint64: the bytes that the call writes.
unfoldable pub put_uint16 : ℕ → Bytes
put_uint16 n = uint8 n ∷ uint8 (n / 2 ^ 8) ∷ []

unfoldable pub put_uint32 : ℕ → Bytes
put_uint32 n = uint8 n ∷ uint8 (n / 2 ^ 8) ∷ uint8 (n / 2 ^ 16) ∷ uint8 (n / 2 ^ 24) ∷ []

unfoldable pub put_uint64 : ℕ → Bytes
put_uint64 n =
    uint8 n
    ∷ uint8 (n / 2 ^ 8)
    ∷ uint8 (n / 2 ^ 16)
    ∷ uint8 (n / 2 ^ 24)
    ∷ uint8 (n / 2 ^ 32)
    ∷ uint8 (n / 2 ^ 40)
    ∷ uint8 (n / 2 ^ 48)
    ∷ uint8 (n / 2 ^ 56)
    ∷ []

-- The first byte; like the reads below it stands behind a test of the length.
unfoldable pub byte : Bytes → ℕ
byte [] = 0
byte (b ∷ r) = b

-- Uint16, Uint32, Uint64 of the head of a slice. The calls panic on a shorter slice; every call
-- of the program stands behind a test of the length, so the value there is never used.
unfoldable pub get_uint16 : Bytes → ℕ
get_uint16 (a ∷ b ∷ r) = a + b * 2 ^ 8
get_uint16 _ = 0

unfoldable pub get_uint32 : Bytes → ℕ
get_uint32 (a ∷ b ∷ c ∷ d ∷ r) = a + b * 2 ^ 8 + c * 2 ^ 16 + d * 2 ^ 24
get_uint32 _ = 0

unfoldable pub get_uint64 : Bytes → ℕ
get_uint64 (a ∷ b ∷ c ∷ d ∷ e ∷ f ∷ g ∷ h ∷ r) =
    a + b * 2 ^ 8 + c * 2 ^ 16 + d * 2 ^ 24 + e * 2 ^ 32 + f * 2 ^ 40 + g * 2 ^ 48 + h * 2 ^ 56
get_uint64 _ = 0

-- raw[lo:hi]
abbrev pub slice : Bytes → ℕ → ℕ → Bytes
slice raw lo hi = take (hi - lo) (drop lo raw)

-- bytes.Equal, and the bytesEqual of internal/index.
unfoldable pub bytes_eq : Bytes → Bytes → Bool
bytes_eq [] [] = true
bytes_eq [] (b ∷ ys) = false
bytes_eq (a ∷ xs) [] = false
bytes_eq (a ∷ xs) (b ∷ ys) = (a == b) && bytes_eq xs ys

pub bytes_eq→eq : (xs ys : Bytes) → bytes_eq xs ys ≡ true → xs ≡ ys
unfolding bytes_eq
bytes_eq→eq [] [] h = refl
bytes_eq→eq [] (b ∷ ys) h = ground arith
bytes_eq→eq (a ∷ xs) [] h = ground arith
bytes_eq→eq (a ∷ xs) (b ∷ ys) h = ground (arith, bytes_eq→eq xs ys)

pub bytes_eq_self : (xs : Bytes) → bytes_eq xs xs ≡ true
unfolding bytes_eq
bytes_eq_self [] = refl
bytes_eq_self (a ∷ xs) = ground (arith, bytes_eq_self xs)

-- What was written is read back, whatever follows it.
pub get-put_uint16 : (n : ℕ) (rest : Bytes) → n < 2 ^ 16 → get_uint16 (put_uint16 n ++ rest) ≡ n
unfolding put_uint16 get_uint16
get-put_uint16 n rest h = omega arith

pub length-put_uint16 : (n : ℕ) → length (put_uint16 n) ≡ 2
unfolding put_uint16
length-put_uint16 n = refl

-- Only the value modulo the width is written.
pub put_uint16_wrap : (n : ℕ) → put_uint16 (uint16 n) ≡ put_uint16 n
unfolding put_uint16
put_uint16_wrap n = ground arith

pub drop-put_uint16 : (n : ℕ) (rest : Bytes) → drop 2 (put_uint16 n ++ rest) ≡ rest
unfolding put_uint16
drop-put_uint16 n rest = refl

pub get-put_uint32 : (n : ℕ) (rest : Bytes) → n < 2 ^ 32 → get_uint32 (put_uint32 n ++ rest) ≡ n
unfolding put_uint32 get_uint32
get-put_uint32 n rest h = omega arith

pub length-put_uint32 : (n : ℕ) → length (put_uint32 n) ≡ 4
unfolding put_uint32
length-put_uint32 n = refl

-- Only the value modulo the width is written.
pub put_uint32_wrap : (n : ℕ) → put_uint32 (uint32 n) ≡ put_uint32 n
unfolding put_uint32
put_uint32_wrap n = ground arith

pub drop-put_uint32 : (n : ℕ) (rest : Bytes) → drop 4 (put_uint32 n ++ rest) ≡ rest
unfolding put_uint32
drop-put_uint32 n rest = refl

pub get-put_uint64 : (n : ℕ) (rest : Bytes) → n < 2 ^ 64 → get_uint64 (put_uint64 n ++ rest) ≡ n
unfolding put_uint64 get_uint64
get-put_uint64 n rest h = omega arith

pub length-put_uint64 : (n : ℕ) → length (put_uint64 n) ≡ 8
unfolding put_uint64
length-put_uint64 n = refl

-- Only the value modulo the width is written.
pub put_uint64_wrap : (n : ℕ) → put_uint64 (uint64 n) ≡ put_uint64 n
unfolding put_uint64
put_uint64_wrap n = ground arith

pub drop-put_uint64 : (n : ℕ) (rest : Bytes) → drop 8 (put_uint64 n ++ rest) ≡ rest
unfolding put_uint64
drop-put_uint64 n rest = refl

pub length-put_uint16_append :
    (n : ℕ) (rest : Bytes) → length (put_uint16 n ++ rest) ≡ length rest + 2
unfolding put_uint16
length-put_uint16_append n rest = omega arith

pub length-put_uint32_append :
    (n : ℕ) (rest : Bytes) → length (put_uint32 n ++ rest) ≡ length rest + 4
unfolding put_uint32
length-put_uint32_append n rest = omega arith

pub length-put_uint64_append :
    (n : ℕ) (rest : Bytes) → length (put_uint64 n ++ rest) ≡ length rest + 8
unfolding put_uint64
length-put_uint64_append n rest = omega arith
