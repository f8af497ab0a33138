-- ===== src/Smc/Decode.antt =====
-- `decode` of linux/turbomac/daemon/smc.py. A type comes without spaces at its ends, as `read_text` gives it.
use text.Mathlib.Text.{◌==◌ as str_eq, starts_with}
use Prim.Native.String.{len, slice}
use turbo_mac.Prelude.{
  ℕ, ◌+◌, ◌-◌, ◌*◌, ◌^◌, Bool, false, ◌&&◌, ◌||◌, not, Option, none, some, String, List, [], ◌∷◌,
  if◌then◌else◌, leb, ltb, ◌==◌, length,
}
use turbo_mac.Config.{one_of}
use turbo_mac.Dict.{get}
use turbo_mac.Smc.{take}

-- A whole number: `pos n` is n, `negsuc n` is - n - 1.
pub data ℤ : Type 0 where
  pos negsuc : ℕ → ℤ

-- A decoded value: the four bytes of a `<f` float, a whole number, a number over a power of two, a
-- Boolean, or the bytes that are shown in hexadecimal.
pub data Decoded : Type 0 where
  single : List ℕ → Decoded
  whole : ℤ → Decoded
  over_power : ℤ → (bits : ℕ) → Decoded
  flag : Bool → Decoded
  hex : List ℕ → Decoded

-- `int.from_bytes(data, "big")`
unfoldable pub from_bytes_on : ℕ → List ℕ → ℕ
from_bytes_on n [] = n
from_bytes_on n (b ∷ rest) = from_bytes_on (n * 256 + b) rest

unfoldable pub from_bytes : List ℕ → ℕ
from_bytes bytes = from_bytes_on 0 bytes

-- The number that a word of `size` values stands for with `signed=True`.
unfoldable pub signed_of : (size n : ℕ) → ℤ
signed_of size n = if ltb (2 * n) size then ℤ.pos n else ℤ.negsuc (size - n - 1)

unfoldable pub from_signed_bytes : List ℕ → ℤ
from_signed_bytes bytes = signed_of (256 ^ length bytes) (from_bytes bytes)

unfoldable pub is_unsigned : String → Bool
is_unsigned t = one_of t ("ui8" ∷ "ui16" ∷ "ui32" ∷ "ui64" ∷ [])

unfoldable pub is_signed : String → Bool
is_signed t = one_of t ("si8" ∷ "si16" ∷ "si32" ∷ "si64" ∷ [])

abbrev hex_digits : List (String × ℕ)
hex_digits =
    ("0", 0)
    ∷ ("1", 1)
    ∷ ("2", 2)
    ∷ ("3", 3)
    ∷ ("4", 4)
    ∷ ("5", 5)
    ∷ ("6", 6)
    ∷ ("7", 7)
    ∷ ("8", 8)
    ∷ ("9", 9)
    ∷ ("a", 10)
    ∷ ("b", 11)
    ∷ ("c", 12)
    ∷ ("d", 13)
    ∷ ("e", 14)
    ∷ ("f", 15)
    ∷ ("A", 10)
    ∷ ("B", 11)
    ∷ ("C", 12)
    ∷ ("D", 13)
    ∷ ("E", 14)
    ∷ ("F", 15)
    ∷ []

-- `int(t[3], 16)`, none for a ValueError.
unfoldable pub hex_digit : String → Option ℕ
hex_digit c = get c hex_digits

-- `len(t) == 4 and t[:2] in ("fp", "sp")`
unfoldable pub is_fixed : String → Bool
is_fixed t = len t == 4 && (starts_with t "fp" || starts_with t "sp")

unfoldable pub decode_fixed : (signed : Bool) → Option ℕ → List ℕ → Decoded
decode_fixed signed none bytes = hex bytes
decode_fixed signed (some bits) bytes =
    over_power
      (if signed then from_signed_bytes (take 2 bytes) else ℤ.pos (from_bytes (take 2 bytes))) bits

unfoldable pub decode_flag : List ℕ → Decoded
decode_flag [] = flag false
decode_flag (b ∷ rest) = flag (not (b == 0))

unfoldable pub decode : String → List ℕ → Decoded
decode t bytes =
    let two = leb 2 (length bytes) in
    if str_eq t "flt" && leb 4 (length bytes)
    then single (take 4 bytes)
    else if is_unsigned t
    then whole (ℤ.pos (from_bytes bytes))
    else if is_signed t
    then whole (from_signed_bytes bytes)
    else if str_eq t "sp78" && two
    then over_power (from_signed_bytes (take 2 bytes)) 8
    else if str_eq t "fpe2" && two
    then over_power (ℤ.pos (from_bytes (take 2 bytes))) 2
    else if is_fixed t && two
    then decode_fixed (starts_with t "sp") (hex_digit (slice t 3 4)) bytes
    else if str_eq t "flag"
    then decode_flag bytes
    else hex bytes
