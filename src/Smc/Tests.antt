-- ===== src/Smc/Tests.antt =====
-- The theorems on the SMC reader with a controller of two keys that have changed places.
use turbo_mac.Prelude.{
  ℕ, ◌*◌, ◌≡◌, refl, true, none, some, [], ◌∷◌, String, one, if◌then◌else◌, ◌==◌, arith,
}
use turbo_mac.Dict.{get, has, put}
use turbo_mac.Config.{one_of}
use turbo_mac.Smc.{
  Entry, Io, Smc, at_index, found_text, raw, answer_of, missed, rescan, caught, raw_locked,
  read_entry, scan, scan_keys, is_filled, cut, take, scanned_lately, open_smc, open_with,
  load_cache,
}
use turbo_mac.Smc.Decode.{
  ℤ, whole, over_power, decode, from_bytes, from_bytes_on, is_unsigned, is_signed, is_fixed,
  decode_fixed, hex_digit,
}
use turbo_mac.Smc.Verified.{IsReported, raw-IsReported}
use turbo_mac.Smc.Signed.{encode, si16, decode-encode}

-- The index that is selected, at the time of 100 s.
abbrev controller : Io
controller = record {
  World = ℕ;
  clock = λ w. 100 * one;
  key_count = λ w. 2;
  get_selector = λ w. some "0";
  select = λ s w. (none, elim s [ at_index i ↦ i | found_text t ↦ 0 ]);
  name = λ w. if w == 0 then "PDTR" else "TC0P";
  type = λ w. if w == 0 then "flt" else "sp78";
  length = λ w. if w == 0 then 4 else 2;
  bytes = λ w. some (if w == 0 then 0 ∷ 0 ∷ 72 ∷ 66 ∷ [] else 45 ∷ 128 ∷ []);
  cached = λ w. none;
  save = λ n table w. w;
}

abbrev entry : ℕ → String → ℕ → Entry
entry i t n = record { index = i; typ = t; length = n }

abbrev stale : Smc
stale = record {
  table = ("TC0P", entry 0 "sp78" 2) ∷ ("PDTR", entry 1 "flt" 4) ∷ [];
  last_scan = some (40 * one);
  original = none;
  ok = true;
}

abbrev fresh : Smc
fresh = record {
  table = ("PDTR", entry 0 "flt" 4) ∷ ("TC0P", entry 1 "sp78" 2) ∷ [];
  last_scan = some (100 * one);
  original = none;
  ok = true;
}

raw-rescans : raw controller "TC0P" stale 0 ≡ (some ("sp78", 45 ∷ 128 ∷ []), fresh, 1)
unfolding raw answer_of missed rescan caught raw_locked read_entry scan scan_keys is_filled cut take
    scanned_lately get has put
raw-rescans = refl

raw-IsReported_example : IsReported controller "TC0P" stale (raw controller "TC0P" stale 0)
raw-IsReported_example = raw-IsReported controller "TC0P" stale 0

-- The original selector is kept by `open`.
open-scans : open_smc controller stale 0 ≡ (record fresh { original = some "0" }, 1)
unfolding open_smc open_with load_cache scan scan_keys is_filled put
open-scans = refl

decode-fixed_point : decode "fp2e" (64 ∷ 0 ∷ []) ≡ over_power (ℤ.pos 16384) 14
unfolding decode is_unsigned is_signed is_fixed one_of decode_fixed hex_digit from_bytes
    from_bytes_on take get
decode-fixed_point = refl

decode-encode_example :
    (decode "si16" (encode 2 (ℤ.negsuc 299)) ≡ whole (ℤ.negsuc 299))
    × (decode "sp78" (encode 2 (ℤ.negsuc 0)) ≡ over_power (ℤ.negsuc 0) 8)
decode-encode_example = decode-encode si16 (ℤ.negsuc 299) (ℤ.negsuc 0) (omega arith) (omega arith)
