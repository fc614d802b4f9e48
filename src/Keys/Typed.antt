-- ===== src/Keys/Typed.antt =====
-- A typed character from its UTF-8 bytes to the event.
use psi_code.Prelude.{
  Integer, suc, ℕ, ◌+◌, ◌/◌, ◌%◌, ◌≤◌, ◌≡◌, refl, sym, ap, ◌∙◌, Bool, true, false, ◌||◌, some, List,
  [], ◌∷◌, ◌++◌, append_assoc, append-nil, arith, Bytes, length, leb, ltb, within, if◌then◌else◌,
  Bool-cases, inl, inr,
}
use psi_code.Text.Utf8.{encode_utf8}
use psi_code.Keys.{Arrival, read_byte, is_orphan_escape_final}
use psi_code.Keys.Names.{text}
use psi_code.Keys.Event.{
  polled, read_continuations, read_utf8_tail, text_event, normalize_key, poll_key,
}
use psi_code.Keys.Collect.{typed}
use psi_code.Keys.Wheel.{poll_key-ready}

abbrev AllContinue : Bytes → Type 0
AllContinue [] = Unit {0}
AllContinue (b ∷ s) = (within 0x80 0xbf b ≡ true) × AllContinue s

read_continuations-typed :
    (gaps : ℕ → ℕ) (out s : Bytes) (rest : List Arrival)
    → ((n : ℕ) → gaps n ≤ 25)
    → AllContinue s
    → read_continuations (length s) out (typed gaps s ++ rest) ≡ (some (out ++ s), rest)
unfolding read_continuations read_byte
read_continuations-typed gaps out [] rest soon c = ap (λ o. (some o, rest)) (sym (append-nil out))
read_continuations-typed gaps out (b ∷ s) rest soon (q, c) =
    let in_time : leb (gaps 0) 25 ≡ true = ground (arith, soon 0) in
    rw (in_time, q)
      (read_continuations-typed (λ n. gaps (suc n)) (out ++ (b ∷ [])) s rest (λ n. soon (suc n)) c
        ∙ ap (λ o. (some o, rest)) (append_assoc out (b ∷ []) s))

abbrev expected : ℕ → ℕ
expected lead = if leb lead 0xdf then 1 else if leb lead 0xef then 2 else 3

normalize_key-text :
    (discard : Bool) (lead : ℕ) (input : List Arrival)
    → 0xc2 ≤ lead
    → normalize_key discard lead input ≡ text_event lead input
unfolding normalize_key is_orphan_escape_final
normalize_key-text discard lead input h = ground arith

normalize_key-lead :
    (discard : Bool) (lead : ℕ) (gaps : ℕ → ℕ) (s : Bytes) (rest : List Arrival)
    → ((n : ℕ) → gaps n ≤ 25)
    → within 0xc2 0xf4 lead ≡ true
    → expected lead ≡ length s
    → AllContinue s
    → normalize_key discard lead (typed gaps s ++ rest) ≡ polled text (lead ∷ s) rest
unfolding text_event read_utf8_tail
normalize_key-lead discard lead gaps s rest soon l e c =
    let tail = read_continuations-typed gaps (lead ∷ []) s rest soon c in
    let low : (ltb lead 0xc2 || ltb 0xf4 lead) ≡ false = ground arith in
    normalize_key-text discard lead (typed gaps s ++ rest) (ground arith)
    ∙ rw (low, e) (rw tail refl)

-- The first byte is there, and the others arrive with a gap in front of each.
abbrev pub burst : (ℕ → ℕ) → Bytes → List Arrival
burst gaps [] = []
burst gaps (b ∷ s) = record { gap = 0; byte = b } ∷ typed gaps s

-- The UTF-8 bytes of a code point from 0x80 to 0x10ffff, the first at hand and each other one
-- behind a gap of its own of at most 25 ms, are polled as one text event with exactly these
-- bytes, whatever the timeout and the discard flag, and the rest of the input stays.
pub poll_key-typed :
    (timeout : Integer) (discard : Bool) (cp : ℕ) (gaps : ℕ → ℕ) (rest : List Arrival)
    → 0x80 ≤ cp
    → cp ≤ 0x10ffff
    → ((n : ℕ) → gaps n ≤ 25)
    → poll_key timeout discard (burst gaps (encode_utf8 cp) ++ rest)
      ≡ polled text (encode_utf8 cp) rest
unfolding encode_utf8
poll_key-typed timeout discard cp gaps rest low high soon =
    let ascii : ltb cp 0x80 ≡ false = ground arith in
    let ready =
      λ (lead : ℕ) (s : Bytes). poll_key-ready timeout discard lead (typed gaps s ++ rest) in
    let last : within 0x80 0xbf (0x80 + cp % 0x40) ≡ true = ground arith in
    let middle : within 0x80 0xbf (0x80 + cp / 0x40 % 0x40) ≡ true = ground arith in
    let third : within 0x80 0xbf (0x80 + cp / 0x1000 % 0x40) ≡ true = ground arith in
    elim (Bool-cases (ltb cp 0x800)) [
      | inl two ↦
          let lead : ℕ = 0xc0 + cp / 0x40 in
          let s : Bytes = (0x80 + cp % 0x40) ∷ [] in
          rw (ascii, two)
            (ready lead s
              ∙ normalize_key-lead discard lead gaps s rest soon (ground arith) (ground arith)
                  (last, tt))
      | inr more ↦ elim (Bool-cases (ltb cp 0x10000)) [
        | inl three ↦
            let lead : ℕ = 0xe0 + cp / 0x1000 in
            let s : Bytes = (0x80 + cp / 0x40 % 0x40) ∷ ((0x80 + cp % 0x40) ∷ []) in
            rw (ascii, more, three)
              (ready lead s
                ∙ normalize_key-lead discard lead gaps s rest soon (ground arith) (ground arith)
                    (middle, (last, tt)))
        | inr four ↦
            let lead : ℕ = 0xf0 + cp / 0x40000 in
            let s : Bytes =
              (0x80 + cp / 0x1000 % 0x40)
              ∷ ((0x80 + cp / 0x40 % 0x40) ∷ ((0x80 + cp % 0x40) ∷ [])) in
            rw (ascii, more, four)
              (ready lead s
                ∙ normalize_key-lead discard lead gaps s rest soon (ground arith) (ground arith)
                    (third, (middle, (last, tt))))
      ]
    ]
