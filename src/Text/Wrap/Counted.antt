-- ===== src/Text/Wrap/Counted.antt =====
-- The count of the lines, kept by the parts of `lfn_tui_text_wrap_ansi` that put lines and pieces.
use psi_code.Prelude.{
  ℕ, ◌+◌, ◌≤◌, ◌≡◌, refl, Bool, true, false, not, ◌&&◌, Option, none, some, ◌>>=◌, [], ◌∷◌, arith,
  Bytes, codes, length, length-append, take, ◌==◌, ltb, if◌then◌else◌,
}
use psi_code.Text.Scan.{Turn, End, ran, stopped, scan, scan_rule, Ensures, Post}
use psi_code.Text.Escape.{esc, read_escape, read_escape_bounds}
use psi_code.Text.Builder.{append}
use psi_code.Text.Wrap.{
  Wrap, close_link, has_text, on_line, on_word, update_active_osc8, update_active_sgr,
  update_active_escape, round, wrapped, active_body, update_active_from_text, end_line, begin_line,
  store_line, wrap_push_line, soft_wrap, wrap_append_piece,
}

abbrev pub Counted : Wrap → Type 0
Counted w = w.line_count ≡ length w.lines

abbrev Held : Option Wrap → Type 0
Held none = Unit
Held (some w) = Counted w

-- A record, so that the rules below are found by the shape of the call.
pub record Kept (r : Option Wrap) : Type 0 where
  pub held : Held r

pub kept : (w : Wrap) → Counted w → Kept (some w)
kept w c = record { held = c }

pub bind :
    (r : Option Wrap) (f : Wrap → Option Wrap)
    → Kept r
    → ((w : Wrap) → Counted w → Kept (f w))
    → Kept (r >>= f)
bind none f k h = record { held = tt }
bind (some w) f k h = h w k.held

bind_any :
    {A : Type 0} (r : Option A) (f : A → Option Wrap) → ((a : A) → Kept (f a)) → Kept (r >>= f)
bind_any none f h = record { held = tt }
bind_any (some a) f h = h a

pub choose : (b : Bool) (x y : Option Wrap) → Kept x → Kept y → Kept (if b then x else y)
choose true x y h k = h
choose false x y h k = k

pub on_line-Kept : (bytes : Bytes) (w : Wrap) → Counted w → Kept (on_line bytes w)
on_line-Kept bytes w c = bind_any (append w.line bytes) _ λ l. kept _ c

pub on_word-Kept : (bytes : Bytes) (w : Wrap) → Counted w → Kept (on_word bytes w)
on_word-Kept bytes w c = bind_any (append w.word bytes) _ λ l. kept _ c

osc8-Kept : (seq : Bytes) (w : Wrap) → Counted w → Kept (update_active_osc8 seq w)
unfolding update_active_osc8
osc8-Kept seq w c = record { held = ground arith }

sgr-Kept : (seq : Bytes) (w : Wrap) → Counted w → Kept (update_active_sgr seq w)
unfolding update_active_sgr
sgr-Kept seq w c = record { held = ground arith }

pub escape-Kept : (seq : Bytes) (w : Wrap) → Counted w → Kept (update_active_escape seq w)
unfolding update_active_escape
escape-Kept seq w c = choose _ _ _ (sgr-Kept seq w c) (choose _ _ _ (osc8-Kept seq w c) (kept w c))

may_put :
    (b : Bool) (bytes : Bytes) (w : Wrap) → Counted w → Kept (if b then on_line bytes w else some w)
may_put true bytes w c = on_line-Kept bytes w c
may_put false bytes w c = kept w c

end_line-Kept : (final : Bool) (w : Wrap) → Counted w → Kept (end_line final w)
end_line-Kept final w c =
    bind
      (if not final && has_text w.line && w.active_underline
        then on_line (esc ∷ codes "[24m") w
        else some w)
      _ (may_put (not final && has_text w.line && w.active_underline) (esc ∷ codes "[24m") w c)
      λ u cu.
        may_put (not final && has_text u.line && has_text u.active_hyperlink) (close_link u) u cu

begin_line-Kept : (final : Bool) (w : Wrap) → Counted w → Kept (begin_line final w)
begin_line-Kept final w c =
    bind (if not final && has_text w.active_sgr then on_line w.active_sgr.text w else some w) _
      (may_put (not final && has_text w.active_sgr) w.active_sgr.text w c)
      λ u cu. may_put (not final && has_text u.active_hyperlink) u.active_hyperlink.text u cu

store_line-Counted : (w : Wrap) → Counted w → Counted (store_line w)
store_line-Counted w c = omega (arith, length-append w.lines (w.line.text ∷ []))

pub push_line-Kept : (final : Bool) (w : Wrap) → Counted w → Kept (wrap_push_line final w)
unfolding wrap_push_line
push_line-Kept final w c =
    bind (end_line final w) _ (end_line-Kept final w c)
      λ u cu. begin_line-Kept final (store_line u) (store_line-Counted u cu)

pub soft_wrap-Kept : (w : Wrap) → Counted w → Kept (soft_wrap w)
unfolding soft_wrap
soft_wrap-Kept w c = bind (wrap_push_line false w) _ (push_line-Kept false w c) λ u cu. kept _ cu

may_wrap : (b : Bool) (w : Wrap) → Counted w → Kept (if b then soft_wrap w else some w)
may_wrap true w c = soft_wrap-Kept w c
may_wrap false w c = kept w c

pub piece-Kept : (piece : Bytes) (n : ℕ) (w : Wrap) → Counted w → Kept (wrap_append_piece piece n w)
unfolding wrap_append_piece
piece-Kept piece n w c = choose (n == 0) (on_line piece w) _ (on_line-Kept piece w c) (
    bind (if ltb 0 w.line_width && ltb w.width (w.line_width + n) then soft_wrap w else some w) _
      (may_wrap (ltb 0 w.line_width && ltb w.width (w.line_width + n)) w c)
      λ u cu. bind (on_line piece u) _ (on_line-Kept piece u cu) λ v cv. kept _ cv)

-- The invariant in a loop over a text.
abbrev pub In : Bytes → Wrap → Type 0
In s w = Counted w

abbrev pub Out : Unit {0} → Type 0
Out u = Unit

pub round-Ensures :
    (s : Bytes) (n : ℕ) (r : Option Wrap) → 1 ≤ n → Kept r → Ensures In Out s (round n r)
round-Ensures s n none h k = tt
round-Ensures s n (some w) h k = (h, k.held)

wrapped-Kept : (e : End Wrap (Unit {0})) → Post In Out e → Kept (wrapped e)
wrapped-Kept (ran w) h = kept w h
wrapped-Kept (stopped u) h = record { held = tt }

pub scan-Kept :
    (body : Bytes → Wrap → Turn Wrap (Unit {0}))
    → ((b : ℕ) (bs : Bytes) (w : Wrap) → Counted w → Ensures In Out (b ∷ bs) (body (b ∷ bs) w))
    → (s : Bytes) (w : Wrap) → Counted w
    → Kept (wrapped (scan body 0 s w))
scan-Kept body keep s w c = wrapped-Kept (scan body 0 s w) (scan_rule In Out body keep 0 s w c)

pub pick :
    (s : Bytes) (m : Option ℕ) (f : ℕ → Turn Wrap (Unit {0})) (x : Turn Wrap (Unit {0}))
    → ((n : ℕ) → m ≡ some n → Ensures In Out s (f n))
    → Ensures In Out s x
    → Ensures In Out s (elim m [ some n ↦ f n | none ↦ x ])
pick s none f x h k = k
pick s (some n) f x h k = h n refl

active-Ensures :
    (b : ℕ) (bs : Bytes) (w : Wrap) → Counted w → Ensures In Out (b ∷ bs) (active_body (b ∷ bs) w)
unfolding active_body
active-Ensures b bs w c =
    let s : Bytes = b ∷ bs in
    pick s (read_escape s) _ _
      (λ n e. round-Ensures s n _ (read_escape_bounds s n e).0 (escape-Kept (take n s) w c))
      (omega arith, c)

pub active-Kept : (text : Bytes) (w : Wrap) → Counted w → Kept (update_active_from_text text w)
unfolding update_active_from_text
active-Kept text w c = scan-Kept active_body active-Ensures text w c
