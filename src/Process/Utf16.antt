-- ===== src/Process/Utf16.antt =====
-- `psi_process_utf8_to_utf16`: the strings of the command line for the Windows calls. A test
-- `c & mask == tag` on a byte is the range of the bytes that pass it, `c & mask` on the low bits is
-- a remainder, a shift is a product, and `|` of separate bits is a sum.
use psi_code.Prelude.{
  byte_at, ℕ, zero, suc, ◌+◌, ◌-◌, ◌*◌, ◌/◌, ◌%◌, ◌≤◌, ◌≡◌, refl, ap, ◌∙◌, Bool, false, ◌&&◌, ◌||◌,
  List, [], ◌∷◌, ◌++◌, arith, Bytes, length, drop, length-append, ltb, leb, within, if◌then◌else◌,
}
use psi_code.Text.Utf8.{Decoded, encode_utf8}

-- `psi_process_utf8_continuation`
abbrev pub utf8_continuation : ℕ → Bool
utf8_continuation c = within 0x80 0xbf c

abbrev pub replacement : ℕ
replacement = 0xfffd

abbrev pub or_replaced : Bool → ℕ → ℕ
or_replaced wrong cp = if wrong then replacement else cp

-- The code point that begins with the byte `c`, of which `bs` follow.
unfoldable pub decode_lossy : ℕ → Bytes → Decoded
unfolding byte_at
decode_lossy c bs =
    let b1 = byte_at bs 0 in
    let b2 = byte_at bs 1 in
    let b3 = byte_at bs 2 in
    let two = c % 0x20 * 0x40 + b1 % 0x40 in
    let three = c % 0x10 * 0x1000 + b1 % 0x40 * 0x40 + b2 % 0x40 in
    let four = c % 0x08 * 0x40000 + b1 % 0x40 * 0x1000 + b2 % 0x40 * 0x40 + b3 % 0x40 in
    if ltb c 0x80
    then record { code = c; used = 1 }
    else if within 0xc0 0xdf c && leb 1 (length bs) && utf8_continuation b1
    then record { code = or_replaced (ltb two 0x80) two; used = 2 }
    else if within 0xe0 0xef c && leb 2 (length bs) && utf8_continuation b1 && utf8_continuation b2
    then record {
      code = or_replaced (ltb three 0x800 || within 0xd800 0xdfff three) three;
      used = 3;
    }
    else if within 0xf0 0xf7 c
        && leb 3 (length bs)
        && utf8_continuation b1
        && utf8_continuation b2
        && utf8_continuation b3
    then record { code = or_replaced (ltb four 0x10000 || ltb 0x10ffff four) four; used = 4 }
    else record { code = replacement; used = 1 }

-- The units that are written for a code point.
unfoldable pub units_of : ℕ → List ℕ
units_of cp =
    if leb cp 0xffff
    then cp ∷ []
    else (0xd800 + (cp - 0x10000) / 0x400) ∷ (0xdc00 + (cp - 0x10000) % 0x400) ∷ []

-- The loop over the bytes. The first number counts those that the last round has passed already.
unfoldable pub units_from : ℕ → Bytes → List ℕ
unfolding decode_lossy units_of
units_from k [] = []
units_from (suc k) (b ∷ bs) = units_from k bs
units_from zero (b ∷ bs) =
    let d = decode_lossy b bs in units_of d.code ++ units_from (d.used - 1) bs

-- The units in front of the final 0.
unfoldable pub utf8_to_utf16 : Bytes → List ℕ
unfolding units_from
utf8_to_utf16 s = units_from 0 s

units_from-drop : (k : ℕ) (s : Bytes) → units_from k s ≡ units_from 0 (drop k s)
unfolding units_from
units_from-drop zero s = refl
units_from-drop (suc k) [] = refl
units_from-drop (suc k) (b ∷ bs) = units_from-drop k bs

-- A code point of two units has taken four bytes.
units_of-used :
    (c : ℕ) (bs : Bytes)
    → let d = decode_lossy c bs in
      (length (units_of d.code) ≤ d.used) × (1 ≤ d.used) × (d.used ≤ 1 + length bs)
unfolding units_of decode_lossy
units_of-used c bs = ground arith

units_from-le : (k : ℕ) (s : Bytes) → length (units_from k s) ≤ length s - k
unfolding units_from
units_from-le zero [] = omega arith
units_from-le (suc k) [] = omega arith
units_from-le (suc k) (b ∷ bs) = omega (arith, units_from-le k bs)
units_from-le zero (b ∷ bs) =
    let d = decode_lossy b bs in
    let (units, least, most) = units_of-used b bs in
    omega (
      arith,
      length-append (units_of d.code) (units_from (d.used - 1) bs),
      units_from-le (d.used - 1) bs,
    )

-- psi_process_utf8_to_utf16 writes no more units than the text has bytes, well-formed or not.
utf8_to_utf16-le : (s : Bytes) → length (utf8_to_utf16 s) ≤ length s
unfolding utf8_to_utf16
utf8_to_utf16-le s = omega (arith, units_from-le 0 s)

-- The code points that are not surrogates.
abbrev pub IsScalar : ℕ → Type 0
IsScalar cp = (cp ≤ 0x10ffff) × (within 0xd800 0xdfff cp ≡ false)

abbrev decode_at : Bytes → Decoded
decode_at [] = record { code = 0; used = 0 }
decode_at (c ∷ bs) = decode_lossy c bs

decode_at-encode_utf8 :
    (cp : ℕ) (rest : Bytes)
    → IsScalar cp
    → decode_at (encode_utf8 cp ++ rest) ≡ record { code = cp; used = length (encode_utf8 cp) }
unfolding decode_lossy encode_utf8
decode_at-encode_utf8 cp rest h = ground arith

drop-length : (s t : Bytes) → drop (length s) (s ++ t) ≡ t
drop-length [] t = refl
drop-length (x ∷ s) t = drop-length s t

units_from-head :
    (c : ℕ) (bs : Bytes)
    → let d = decode_lossy c bs in
      units_from 0 (c ∷ bs) ≡ units_of d.code ++ units_from 0 (drop d.used (c ∷ bs))
unfolding units_from
units_from-head c bs =
    let d = decode_lossy c bs in
    let step : drop (d.used - 1) bs ≡ drop d.used (c ∷ bs) = behind d.used (units_of-used c bs).1 in
    ap (λ u. units_of d.code ++ u) (units_from-drop (d.used - 1) bs ∙ ap (units_from 0) step)
  where
    behind : (n : ℕ) → 1 ≤ n → drop (n - 1) bs ≡ drop n (c ∷ bs)
    behind zero h = absurd (omega arith)
    behind (suc n) h = let e : suc n - 1 ≡ n = omega arith in rw e refl

units_from-at :
    (s : Bytes)
    → 1 ≤ length s
    → units_from 0 s ≡ units_of (decode_at s).code ++ units_from 0 (drop (decode_at s).used s)
units_from-at [] h = absurd (omega arith)
units_from-at (c ∷ bs) h = units_from-head c bs

encode_utf8-some : (cp : ℕ) → 1 ≤ length (encode_utf8 cp)
unfolding encode_utf8
encode_utf8-some cp = ground arith

units_from-encode_utf8 :
    (cp : ℕ) (rest : Bytes)
    → IsScalar cp
    → units_from 0 (encode_utf8 cp ++ rest) ≡ units_of cp ++ units_from 0 rest
units_from-encode_utf8 cp rest h =
    let s : Bytes = encode_utf8 cp ++ rest in
    let some_bytes : 1 ≤ length s =
      omega (arith, length-append (encode_utf8 cp) rest, encode_utf8-some cp) in
    let split = units_from-at s some_bytes in
    let split2 = rw (decode_at-encode_utf8 cp rest h) at split in
    split2 ∙ ap (λ t. units_of cp ++ units_from 0 t) (drop-length (encode_utf8 cp) rest)

-- The code points of UTF-16, by RFC 2781.
unfoldable pub read_utf16 : List ℕ → List ℕ
read_utf16 [] = []
read_utf16 (u ∷ []) = u ∷ []
read_utf16 (u ∷ v ∷ us) =
    let single = read_utf16 (v ∷ us) in
    let pair = read_utf16 us in
    if within 0xd800 0xdbff u && within 0xdc00 0xdfff v
    then (0x10000 + (u - 0xd800) * 0x400 + (v - 0xdc00)) ∷ pair
    else u ∷ single

read_utf16-units_of :
    (cp : ℕ) (us : List ℕ) → IsScalar cp → read_utf16 (units_of cp ++ us) ≡ cp ∷ read_utf16 us
unfolding read_utf16 units_of
read_utf16-units_of cp [] h = ground arith
read_utf16-units_of cp (v ∷ us) h = ground arith

-- The code points of a text, and its bytes.
abbrev pub AllScalar : List ℕ → Type 0
AllScalar [] = Unit
AllScalar (cp ∷ cps) = IsScalar cp × AllScalar cps

abbrev pub encoded : List ℕ → Bytes
encoded [] = []
encoded (cp ∷ cps) = encode_utf8 cp ++ encoded cps

-- A text of Unicode scalar values that is encoded in UTF-8 and converted by
-- psi_process_utf8_to_utf16 reads as the same scalar values in UTF-16.
pub read_utf16-utf8_to_utf16 :
    (cps : List ℕ) → AllScalar cps → read_utf16 (utf8_to_utf16 (encoded cps)) ≡ cps
unfolding utf8_to_utf16 units_from read_utf16
read_utf16-utf8_to_utf16 [] h = refl
read_utf16-utf8_to_utf16 (cp ∷ cps) (h, hs) =
    ap read_utf16 (units_from-encode_utf8 cp (encoded cps) h)
    ∙ read_utf16-units_of cp (units_from 0 (encoded cps)) h
    ∙ ap (λ l. cp ∷ l) (read_utf16-utf8_to_utf16 cps hs)
