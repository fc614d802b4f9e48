-- ===== src/Text/Wrap.antt =====
-- `struct psi_vm_text_wrap_context` and the lines that `wrap_ansi` pushes into it. `none` is the
-- return of 0, after which the caller raises "out of memory".
pub mod Counted
use psi_code.Prelude.{
  byte_at, ℕ, suc, ◌+◌, ◌-◌, Bool, true, false, not, ◌&&◌, Option, none, some, ◌>>=◌, List, [], ◌∷◌,
  ◌++◌, Bytes, length, drop, take, codes, ◌==◌, ltb, leb, if◌then◌else◌,
}
use psi_code.Text.Scan.{Turn, go, stop, End, ran, stopped, scan}
use psi_code.Text.Escape.{esc, bel, read_escape}
use psi_code.Text.Builder.{Builder, builder_init, clear, append}
use psi_code.Text.Sgr.{is_sgr, sgr_resets, last_byte, update_sgr_flags}

-- `lines` is the Lua table, with `line_count` its length.
pub record Wrap : Type 0 where
  pub lines : List Bytes
  pub line_count : ℕ
  pub line_width : ℕ
  pub word_width : ℕ
  pub pending_space : Bool
  pub pending_space_width : ℕ
  pub soft_wrapped : Bool
  pub width : ℕ
  pub active_underline : Bool
  pub active_hyperlink_terminator : ℕ
  pub line : Builder
  pub word : Builder
  pub active_sgr : Builder
  pub active_hyperlink : Builder

-- `allocs` gives each of the four buffers the allocator's answers to it.
unfoldable pub wrap_context_init : (ℕ → ℕ → Bool) → ℕ → Wrap
wrap_context_init allocs width = record {
  lines = [];
  line_count = 0;
  line_width = 0;
  word_width = 0;
  pending_space = false;
  pending_space_width = 0;
  soft_wrapped = false;
  width = width;
  active_underline = false;
  active_hyperlink_terminator = 0;
  line = builder_init (allocs 0);
  word = builder_init (allocs 1);
  active_sgr = builder_init (allocs 2);
  active_hyperlink = builder_init (allocs 3);
}

abbrev pub on_line : Bytes → Wrap → Option Wrap
on_line bytes w = do line ← append w.line bytes; some (record w { line = line })

abbrev pub on_word : Bytes → Wrap → Option Wrap
on_word bytes w = do word ← append w.word bytes; some (record w { word = word })

-- `while (payload_start < len && seq[payload_start] != ';')`
unfoldable pub find_semicolon : Bytes → Option ℕ
find_semicolon [] = none
find_semicolon (b ∷ bs) =
    let rest = find_semicolon bs in if b == b';' then some 0 else (do n ← rest; some (suc n))

-- The terminator of the sequence, with the index of the payload's end.
pub record Payload : Type 0 where
  pub end : ℕ
  pub terminator : ℕ

unfoldable payload_of : Bytes → Option Payload
unfolding last_byte byte_at
payload_of seq =
    if last_byte seq == bel
    then some (record { end = length seq - 1; terminator = bel })
    else if byte_at seq (length seq - 2) == esc && last_byte seq == b'\\'
    then some (record { end = length seq - 2; terminator = b'\\' })
    else none

unfoldable is_osc8 : Bytes → Bool
unfolding byte_at
is_osc8 seq =
    leb 5 (length seq)
    && byte_at seq 0 == esc
    && byte_at seq 1 == b']'
    && byte_at seq 2 == b'8'
    && byte_at seq 3 == b';'

-- A link with an empty payload ends the active one, and any other replaces it.
abbrev store_link : Wrap → Bytes → ℕ → Payload → Option Wrap
store_link w seq start p =
    if leb p.end start
    then some
        (record w { active_hyperlink = clear w.active_hyperlink; active_hyperlink_terminator = 0 })
    else (do
      link ← append (clear w.active_hyperlink) seq
      some (record w { active_hyperlink = link; active_hyperlink_terminator = p.terminator }))

unfoldable pub update_active_osc8 : Bytes → Wrap → Option Wrap
unfolding is_osc8 find_semicolon payload_of
update_active_osc8 seq w =
    if is_osc8 seq
    then elim (find_semicolon (drop 4 seq)) [
      | none ↦ some w
      | some n ↦ elim (payload_of seq) [ none ↦ some w | some p ↦ store_link w seq (n + 5) p ]
    ]
    else some w

unfoldable pub update_active_sgr : Bytes → Wrap → Option Wrap
unfolding is_sgr update_sgr_flags sgr_resets
update_active_sgr seq w =
    let underline : Bool = update_sgr_flags seq w.active_underline in
    if is_sgr seq
    then (if sgr_resets seq
        then some (record w { active_underline = underline; active_sgr = clear w.active_sgr })
        else (do
          sgr ← append w.active_sgr seq
          some (record w { active_underline = underline; active_sgr = sgr })))
    else some w

unfoldable pub update_active_escape : Bytes → Wrap → Option Wrap
unfolding update_active_sgr update_active_osc8 byte_at
update_active_escape seq w =
    if leb 2 (length seq) && byte_at seq 0 == esc && byte_at seq 1 == b'['
    then update_active_sgr seq w
    else if leb 2 (length seq) && byte_at seq 0 == esc && byte_at seq 1 == b']'
    then update_active_osc8 seq w
    else some w

-- A round's result: on behind `n` bytes, or out of the loop by a return of 0.
abbrev pub round : ℕ → Option Wrap → Turn Wrap (Unit {0})
round n none = stop tt
round n (some w) = go n w

abbrev pub wrapped : End Wrap (Unit {0}) → Option Wrap
wrapped (ran w) = some w
wrapped (stopped u) = none

unfoldable pub active_body : Bytes → Wrap → Turn Wrap (Unit {0})
unfolding read_escape update_active_escape
active_body s w = elim (read_escape s) [
  | none ↦ go 1 w
  | some n ↦ round n (update_active_escape (take n s) w)
]

unfoldable pub update_active_from_text : Bytes → Wrap → Option Wrap
unfolding active_body
update_active_from_text text w = wrapped (scan active_body 0 text w)

-- The code that ends the active link.
abbrev pub close_link : Wrap → Bytes
close_link w =
    if w.active_hyperlink_terminator == bel
    then esc ∷ (codes "]8;;" ++ bel ∷ [])
    else esc ∷ (codes "]8;;" ++ esc ∷ b'\\' ∷ [])

abbrev pub has_text : Builder → Bool
has_text b = ltb 0 (length b.text)

-- The line is ended, and the next one begins with what is active.
abbrev pub end_line : Bool → Wrap → Option Wrap
end_line final w = do
  u ←
      if not final && has_text w.line && w.active_underline
      then on_line (esc ∷ codes "[24m") w
      else some w
  if not final && has_text u.line && has_text u.active_hyperlink
      then on_line (close_link u) u
      else some u

abbrev pub begin_line : Bool → Wrap → Option Wrap
begin_line final w = do
  u ← if not final && has_text w.active_sgr then on_line w.active_sgr.text w else some w
  if not final && has_text u.active_hyperlink then on_line u.active_hyperlink.text u else some u

-- `lua_rawseti` at the new `line_count`
abbrev pub store_line : Wrap → Wrap
store_line w = record w {
  lines = w.lines ++ (w.line.text ∷ []);
  line_count = w.line_count + 1;
  line = clear w.line;
}

unfoldable pub wrap_push_line : Bool → Wrap → Option Wrap
wrap_push_line final w = do u ← end_line final w; begin_line final (store_line u)

-- The new line that a piece or a word begins, at width 0.
unfoldable pub soft_wrap : Wrap → Option Wrap
unfolding wrap_push_line
soft_wrap w = do u ← wrap_push_line false w; some (record u { line_width = 0; soft_wrapped = true })

unfoldable pub wrap_append_piece : Bytes → ℕ → Wrap → Option Wrap
unfolding soft_wrap
wrap_append_piece piece piece_width w = if piece_width == 0 then on_line piece w else (do
  u ← if ltb 0 w.line_width && ltb w.width (w.line_width + piece_width) then soft_wrap w else some w
  v ← on_line piece u
  some (record v { line_width = v.line_width + piece_width; soft_wrapped = false }))
