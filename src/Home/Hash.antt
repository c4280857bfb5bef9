-- ===== src/Home/Hash.antt =====
-- UTF-8 bytes, and the FNV-1a hash in hexadecimal digits (src/home.rs).
use Prim.Native.Nat.{bit_xor}
use sshw.Base.{
  ℕ, zero, suc, ◌+◌, ◌-◌, ◌*◌, ◌/◌, ◌%◌, ◌^◌, true, Text, codes, [], ◌∷◌, ◌++◌, ◌≡◌, refl, arith,
  if◌then◌else◌, ltb, all, length, is_ascii_hexdigit,
}

-- The bytes of one code point.
unfoldable pub utf8 : ℕ → Text
utf8 c =
    if ltb c 0x80
    then c ∷ []
    else if ltb c 0x800
    then (0xc0 + c / 64) ∷ (0x80 + c % 64) ∷ []
    else if ltb c 0x10000
    then (0xe0 + c / 4096) ∷ (0x80 + c / 64 % 64) ∷ (0x80 + c % 64) ∷ []
    else (0xf0 + c / 262144) ∷ (0x80 + c / 4096 % 64) ∷ (0x80 + c / 64 % 64) ∷ (0x80 + c % 64) ∷ []

unfoldable pub as_bytes : Text → Text
unfolding utf8
as_bytes [] = []
as_bytes (c ∷ s) = utf8 c ++ as_bytes s

-- Different texts have different bytes.
pub as_bytes-injective : (s t : Text) → as_bytes s ≡ as_bytes t → s ≡ t
unfolding as_bytes
as_bytes-injective [] [] h = refl
as_bytes-injective [] (d ∷ t) h = absurd (ground arith)
as_bytes-injective (c ∷ s) [] h = absurd (ground arith)
as_bytes-injective (c ∷ s) (d ∷ t) h = ground (arith, as_bytes-injective s t)

abbrev offset : ℕ
offset = 0xcbf29ce484222325

abbrev prime : ℕ
prime = 0x100000001b3

-- `hash ^= byte; hash = hash.wrapping_mul(PRIME)` for each byte.
fnv1a : ℕ → Text → ℕ
fnv1a hash [] = hash
fnv1a hash (byte ∷ bytes) = fnv1a (bit_xor hash byte * prime % 2 ^ 64) bytes

hex_digit : ℕ → ℕ
hex_digit d = if ltb d 10 then b'0' + d else b'a' + d - 10

-- `{:016x}` of a 64-bit number: its sixteen digits, the last one first.
hex_digits : ℕ → ℕ → Text → Text
unfolding hex_digit
hex_digits zero n out = out
hex_digits (suc k) n out = hex_digits k (n / 16) (hex_digit (n % 16) ∷ out)

unfoldable pub fnv1a_hex : Text → Text
unfolding fnv1a hex_digits
fnv1a_hex input = hex_digits 16 (fnv1a offset (as_bytes input)) []

hex_digit_lem : (n : ℕ) → is_ascii_hexdigit (hex_digit (n % 16)) ≡ true
unfolding hex_digit is_ascii_hexdigit
hex_digit_lem n = ground arith

all-hex_digits :
    (k n : ℕ) (out : Text)
    → all is_ascii_hexdigit out ≡ true
    → all is_ascii_hexdigit (hex_digits k n out) ≡ true
unfolding hex_digits all
all-hex_digits zero n out h = h
all-hex_digits (suc k) n out h =
    all-hex_digits k (n / 16) (hex_digit (n % 16) ∷ out) (ground (arith, hex_digit_lem n))

length-hex_digits : (k n : ℕ) (out : Text) → length (hex_digits k n out) ≡ k + length out
unfolding hex_digits
length-hex_digits zero n out = ground arith
length-hex_digits (suc k) n out =
    ground (arith, length-hex_digits k (n / 16) (hex_digit (n % 16) ∷ out))

-- Every hash is written in sixteen hexadecimal digits.
pub fnv1a_hex_lem :
    (input : Text)
    → (all is_ascii_hexdigit (fnv1a_hex input) ≡ true) × (length (fnv1a_hex input) ≡ 16)
unfolding fnv1a_hex
fnv1a_hex_lem input =
    let hash = fnv1a offset (as_bytes input) in
    (all-hex_digits 16 hash [] (unfold all in refl), length-hex_digits 16 hash [])

fnv1a_hex_of_nothing : fnv1a_hex [] ≡ codes "cbf29ce484222325"
unfolding fnv1a_hex as_bytes
fnv1a_hex_of_nothing = refl
