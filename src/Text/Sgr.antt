-- ===== src/Text/Sgr.antt =====
-- The parameters of `ESC [ ... m`: `psi_vm_text_sgr_resets`, `psi_vm_text_parse_sgr_value` and
-- `psi_vm_text_update_sgr_flags`. A parameter is read into an `int`, which is taken to wrap around at
-- 2 ^ 32 where it overflows; it is only compared with small numbers, so it stands here without its sign.
pub mod Resets
use psi_code.Prelude.{
  byte_at, ℕ, zero, suc, ◌+◌, ◌-◌, ◌*◌, ◌%◌, ◌^◌, Bool, true, false, not, ◌&&◌, ◌||◌, [], ◌∷◌,
  Bytes, length, drop, ◌==◌, ltb, leb, within, if◌then◌else◌,
}
use psi_code.Text.Scan.{Turn, go, End, ran, stopped, scan}
use psi_code.Text.Escape.{esc}

abbrev pub is_digit : ℕ → Bool
is_digit ch = within b'0' b'9' ch

-- `value * 10 + (int)(ch - '0')`
abbrev pub next_value : ℕ → ℕ → ℕ
next_value value ch = (value * 10 + (ch - b'0')) % 2 ^ 32

-- `seq[len - 1u]`
unfoldable pub last_byte : Bytes → ℕ
last_byte [] = 0
last_byte (b ∷ []) = b
last_byte (b ∷ c ∷ cs) = last_byte (c ∷ cs)

-- The test that the functions on such a sequence begin with.
unfoldable pub is_sgr : Bytes → Bool
unfolding last_byte byte_at
is_sgr seq =
    not (ltb (length seq) 3)
    && byte_at seq 0 == esc
    && byte_at seq 1 == b'['
    && last_byte seq == b'm'

-- The loop of `sgr_resets`, with `value` and `saw_digit`. A loop `while (i + 1u < len)` stops in
-- front of the last byte.
unfoldable pub any_zero : Bytes → ℕ → Bool → Bool
any_zero [] value saw_digit = saw_digit && value == 0
any_zero (m ∷ []) value saw_digit = saw_digit && value == 0
any_zero (ch ∷ c ∷ cs) value saw_digit =
    let digit = any_zero (c ∷ cs) (next_value value ch) true in
    let other = any_zero (c ∷ cs) 0 false in
    if is_digit ch then digit else if saw_digit && value == 0 then true else other

unfoldable pub sgr_resets : Bytes → Bool
unfolding is_sgr any_zero
sgr_resets seq =
    if not (is_sgr seq)
    then false
    else if length seq == 3
    then true
    else any_zero (drop 2 seq) 0 false

-- What `parse_sgr_value` returns, stores, and how far it moves `*i`.
pub record Parsed : Type 0 where
  pub saw_digit : Bool
  pub value : ℕ
  pub used : ℕ

abbrev pub behind : ℕ → Parsed → Parsed
behind n p = record p { used = p.used + n }

unfoldable pub parse_digits : Bytes → ℕ → Bool → Parsed
parse_digits [] parsed saw = record { saw_digit = saw; value = if saw then parsed else 0; used = 0 }
parse_digits (m ∷ []) parsed saw = record {
  saw_digit = saw;
  value = if saw then parsed else 0;
  used = 0;
}
parse_digits (ch ∷ c ∷ cs) parsed saw =
    let more = parse_digits (c ∷ cs) (next_value parsed ch) true in
    if is_digit ch
    then behind 1 more
    else record { saw_digit = saw; value = if saw then parsed else 0; used = 0 }

unfoldable pub parse_sgr_value : Bytes → Parsed
unfolding parse_digits
parse_sgr_value s = parse_digits s 0 false

-- `i + 1u < len && seq[i] == ';'`, as the number of bytes to pass
abbrev pub separator : Bytes → ℕ
separator s = if leb 2 (length s) && byte_at s 0 == b';' then 1 else 0

-- The loop over the `remaining` parts of a color.
unfoldable pub color_parts : ℕ → Bytes → ℕ
unfolding parse_sgr_value byte_at
color_parts zero s = 0
color_parts (suc remaining) s =
    let sep : ℕ = separator s in
    let p = parse_sgr_value (drop sep s) in
    let more = color_parts remaining (drop (sep + p.used) s) in
    if ltb (length s) 2 then 0 else if p.saw_digit then sep + p.used + more else sep

-- The bytes behind a `38` or a `48` that belong to it.
unfoldable pub color_length : Bytes → ℕ
unfolding parse_sgr_value color_parts byte_at
color_length s =
    let sep : ℕ = separator s in
    let mode = parse_sgr_value (drop sep s) in
    let remaining : ℕ = if mode.value == 5 then 1 else if mode.value == 2 then 3 else 0 in
    if mode.saw_digit
    then sep + mode.used + color_parts remaining (drop (sep + mode.used) s)
    else sep

-- A round of the loop of `update_sgr_flags`, on `active_underline`.
unfoldable pub flags_body : Bytes → Bool → Turn Bool Bool
unfolding parse_sgr_value color_length byte_at
flags_body s underline =
    let p = parse_sgr_value s in
    if ltb (length s) 2
    then go 1 underline
    else if byte_at s 0 == b';'
    then go 1 underline
    else if not p.saw_digit
    then go 1 underline
    else if p.value == 0
    then go p.used false
    else if p.value == 4
    then go p.used true
    else if p.value == 24
    then go p.used false
    else if p.value == 38 || p.value == 48
    then go (p.used + color_length (drop p.used s)) underline
    else go p.used underline

abbrev pub flag_of : End Bool Bool → Bool
flag_of (ran b) = b
flag_of (stopped b) = b

unfoldable pub update_sgr_flags : Bytes → Bool → Bool
unfolding is_sgr sgr_resets flags_body
update_sgr_flags seq underline =
    if not (is_sgr seq)
    then underline
    else if sgr_resets seq
    then false
    else flag_of (scan flags_body 2 seq underline)
