-- ===== src/Smc/Signed.antt =====
-- `decode` of linux/turbomac/daemon/smc.py against the encoding of whole numbers: two's complement, the
-- most significant byte first.
use mathlib.Core.Path.{subst}
use turbo_mac.Prelude.{
  ℕ, zero, suc, ◌+◌, ◌-◌, ◌*◌, ◌/◌, ◌%◌, ◌^◌, ◌≤◌, ◌<◌, ◌≡◌, refl, ap, ◌∙◌, false, String, List, [],
  ◌∷◌, ◌++◌, arith, length, length-append, ltb, lt→ltb,
}
use turbo_mac.Smc.{take}
use turbo_mac.Smc.Decode.{
  ℤ, pos, negsuc, whole, over_power, from_bytes, from_bytes_on, signed_of, from_signed_bytes,
  decode, is_unsigned, is_signed,
}
use turbo_mac.Config.{one_of}

-- A number in `size` bytes.
unfoldable pub to_bytes : (size n : ℕ) → List ℕ
to_bytes zero n = []
to_bytes (suc size) n = to_bytes size (n / 256) ++ n % 256 ∷ []

-- The word that stands for a whole number.
unfoldable pub word_of : (size : ℕ) → ℤ → ℕ
word_of size (pos n) = n
word_of size (negsuc n) = 256 ^ size - n - 1

unfoldable pub encode : (size : ℕ) → ℤ → List ℕ
encode size x = to_bytes size (word_of size x)

-- Between - 2 ^ (8 size - 1) and 2 ^ (8 size - 1) - 1.
abbrev pub Fits : (size : ℕ) → ℤ → Type 0
Fits size (pos n) = 2 * n < 256 ^ size
Fits size (negsuc n) = 2 * n < 256 ^ size

length-to_bytes : (size n : ℕ) → length (to_bytes size n) ≡ size
unfolding to_bytes
length-to_bytes zero n = refl
length-to_bytes (suc size) n =
    omega (
      arith,
      length-append (to_bytes size (n / 256)) (n % 256 ∷ []),
      length-to_bytes size (n / 256),
    )

from_bytes_on-append :
    (m : ℕ) (bytes : List ℕ) (b : ℕ)
    → from_bytes_on m (bytes ++ b ∷ []) ≡ from_bytes_on m bytes * 256 + b
unfolding from_bytes_on
from_bytes_on-append m [] b = refl
from_bytes_on-append m (c ∷ rest) b = from_bytes_on-append (m * 256 + c) rest b

pow-suc : (size : ℕ) → 256 ^ suc size ≡ 256 ^ size * 256
pow-suc size = omega arith

from_bytes-to_bytes : (size n : ℕ) → n < 256 ^ size → from_bytes (to_bytes size n) ≡ n
unfolding from_bytes to_bytes from_bytes_on
from_bytes-to_bytes zero n h = omega (arith, h)
from_bytes-to_bytes (suc size) n h = omega (
  arith,
  from_bytes_on-append 0 (to_bytes size (n / 256)) (n % 256),
  from_bytes-to_bytes size (n / 256) (omega (arith, h, pow-suc size)),
)

word_of-Fits : (size : ℕ) (x : ℤ) → Fits size x → word_of size x < 256 ^ size
unfolding word_of
word_of-Fits size (pos n) h = omega (arith, h)
word_of-Fits size (negsuc n) h = omega (arith, h)

signed_of_positive : (p n : ℕ) → 2 * n < p → signed_of p n ≡ pos n
unfolding signed_of
signed_of_positive p n h = rw (lt→ltb (2 * n) p h) refl

signed_of_negative : (p n : ℕ) → p % 2 ≡ 0 → 2 * n < p → signed_of p (p - n - 1) ≡ negsuc n
unfolding signed_of
signed_of_negative p n even h =
    let past : ltb (2 * (p - n - 1)) p ≡ false = ground (arith, even, h) in
    let same : p - (p - n - 1) - 1 ≡ n = omega (arith, even, h) in rw past (ap negsuc same)

pow-even : (size : ℕ) → 1 ≤ size → 256 ^ size % 2 ≡ 0
pow-even zero h = omega (arith, h)
pow-even (suc size) h = omega (arith, pow-suc size)

signed_of-word_of :
    (size : ℕ) (x : ℤ) → 1 ≤ size → Fits size x → signed_of (256 ^ size) (word_of size x) ≡ x
unfolding word_of
signed_of-word_of size (pos n) some_byte h = signed_of_positive (256 ^ size) n h
signed_of-word_of size (negsuc n) some_byte h =
    signed_of_negative (256 ^ size) n (pow-even size some_byte) h

from_signed_bytes-encode :
    (size : ℕ) (x : ℤ) → 1 ≤ size → Fits size x → from_signed_bytes (encode size x) ≡ x
unfolding from_signed_bytes encode
from_signed_bytes-encode size x some_byte h = rw (length-to_bytes size (word_of size x)) (
    rw (from_bytes-to_bytes size (word_of size x) (word_of-Fits size x h))
      (signed_of-word_of size x some_byte h))

take-length : (bytes : List ℕ) → take (length bytes) bytes ≡ bytes
unfolding take
take-length [] = refl
take-length (b ∷ rest) = ap (λ l. b ∷ l) (take-length rest)

-- The signed types, by their code and their size in bytes.
pub data SignedType : Type 0 where
  si8 si16 si32 si64 : SignedType

abbrev pub code : SignedType → String
code si8 = "si8"
code si16 = "si16"
code si32 = "si32"
code si64 = "si64"

abbrev pub size_of : SignedType → ℕ
size_of si8 = 1
size_of si16 = 2
size_of si32 = 4
size_of si64 = 8

decode_signed_lem :
    (t : SignedType) (bytes : List ℕ) → decode (code t) bytes ≡ whole (from_signed_bytes bytes)
unfolding decode is_unsigned is_signed one_of
decode_signed_lem si8 bytes = refl
decode_signed_lem si16 bytes = refl
decode_signed_lem si32 bytes = refl
decode_signed_lem si64 bytes = refl

decode_sp78_lem :
    (bytes : List ℕ)
    → length bytes ≡ 2
    → decode "sp78" bytes ≡ over_power (from_signed_bytes bytes) 8
unfolding decode is_unsigned is_signed one_of
decode_sp78_lem bytes h =
    let all : take 2 bytes ≡ bytes = subst (λ n. take n bytes ≡ bytes) h (take-length bytes) in
    rw h (ap (λ b. over_power (from_signed_bytes b) 8) all)

-- Every whole number that fits a signed type is decoded from its bytes in two's complement, the most
-- significant first; and from two such bytes a `sp78` value is decoded as the number over 2 ^ 8.
pub decode-encode :
    (t : SignedType) (x y : ℤ)
    → Fits (size_of t) x
    → Fits 2 y
    → (decode (code t) (encode (size_of t) x) ≡ whole x)
      × (decode "sp78" (encode 2 y) ≡ over_power y 8)
decode-encode t x y h k = (
  decode_signed_lem t (encode (size_of t) x)
      ∙ ap whole (from_signed_bytes-encode (size_of t) x (some_byte t) h),
  decode_sp78_lem (encode 2 y) (unfold encode in length-to_bytes 2 (word_of 2 y))
      ∙ ap (λ v. over_power v 8) (from_signed_bytes-encode 2 y (omega arith) k),
)
  where
    some_byte : (u : SignedType) → 1 ≤ size_of u
    some_byte si8 = omega arith
    some_byte si16 = omega arith
    some_byte si32 = omega arith
    some_byte si64 = omega arith
