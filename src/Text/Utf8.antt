-- ===== src/Text/Utf8.antt =====
-- `psi_vm_text_decode_utf8`: the code point at the head of the bytes, with how many bytes it takes.
use psi_code.Prelude.{
  byte_at, ℕ, zero, suc, ◌+◌, ◌-◌, ◌*◌, ◌/◌, ◌%◌, ◌≤◌, ◌<◌, ◌≡◌, Bool, ◌&&◌, [], ◌∷◌, ◌++◌, arith,
  Bytes, length, ltb, within, if◌then◌else◌,
}

pub record Decoded : Type 0 where
  pub code : ℕ
  pub used : ℕ

abbrev pub is_continuation : ℕ → Bool
is_continuation b = within 0x80 0xbf b

-- The bytes behind the first one, with 0 for those that are missing, decide the length.
unfoldable pub decode_bytes : ℕ → ℕ → ℕ → ℕ → Decoded
decode_bytes b1 b2 b3 b4 =
    if ltb b1 0x80
    then record { code = b1; used = 1 }
    else if within 0xc2 0xdf b1 && is_continuation b2
    then record { code = (b1 - 0xc0) * 0x40 + (b2 - 0x80); used = 2 }
    else if within 0xe0 0xef b1 && is_continuation b2 && is_continuation b3
    then record { code = (b1 - 0xe0) * 0x1000 + (b2 - 0x80) * 0x40 + (b3 - 0x80); used = 3 }
    else if within 0xf0 0xf4 b1 && is_continuation b2 && is_continuation b3 && is_continuation b4
    then record {
      code = (b1 - 0xf0) * 0x40000 + (b2 - 0x80) * 0x1000 + (b3 - 0x80) * 0x40 + (b4 - 0x80);
      used = 4;
    }
    else record { code = b1; used = 1 }

unfoldable pub decode_utf8 : Bytes → Decoded
unfolding decode_bytes byte_at
decode_utf8 [] = record { code = 0; used = 0 }
decode_utf8 (b ∷ bs) = decode_bytes b (byte_at bs 0) (byte_at bs 1) (byte_at bs 2)

-- The encoding of RFC 3629, for a code point up to 0x10ffff.
unfoldable pub encode_utf8 : ℕ → Bytes
encode_utf8 cp =
    if ltb cp 0x80
    then cp ∷ []
    else if ltb cp 0x800
    then (0xc0 + cp / 0x40) ∷ (0x80 + cp % 0x40) ∷ []
    else if ltb cp 0x10000
    then (0xe0 + cp / 0x1000) ∷ (0x80 + cp / 0x40 % 0x40) ∷ (0x80 + cp % 0x40) ∷ []
    else (0xf0 + cp / 0x40000)
      ∷ (0x80 + cp / 0x1000 % 0x40)
      ∷ (0x80 + cp / 0x40 % 0x40)
      ∷ (0x80 + cp % 0x40)
      ∷ []

byte_at-present : (s : Bytes) (i : ℕ) → 1 ≤ byte_at s i → i < length s
unfolding byte_at
byte_at-present [] i h = absurd (omega arith)
byte_at-present (b ∷ bs) zero h = omega arith
byte_at-present (b ∷ bs) (suc i) h = omega (arith, byte_at-present bs i h)

-- Each step of a decoder takes a byte at least, and none past the end of the text.
pub decode_utf8_bounds :
    (b : ℕ) (bs : Bytes)
    → (1 ≤ (decode_utf8 (b ∷ bs)).used) × ((decode_utf8 (b ∷ bs)).used ≤ length (b ∷ bs))
unfolding decode_utf8
decode_utf8_bounds b bs =
    ground (arith, byte_at-present bs 0, byte_at-present bs 1, byte_at-present bs 2)

-- What RFC 3629 encodes for a number up to 0x10ffff is decoded again with exactly its bytes,
-- whatever bytes follow.
pub decode_utf8-encode_utf8 :
    (cp : ℕ) (rest : Bytes)
    → cp ≤ 0x10ffff
    → decode_utf8 (encode_utf8 cp ++ rest) ≡ record { code = cp; used = length (encode_utf8 cp) }
unfolding decode_utf8 encode_utf8
decode_utf8-encode_utf8 cp rest h = ground arith
