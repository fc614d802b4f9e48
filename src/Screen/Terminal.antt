-- ===== src/Screen/Terminal.antt =====
-- A terminal that reads what the renderer of src/lua/vm.c writes: the text of each row, the cursor
-- and the synchronised update. Styles are left out, and a chunk fits its row.
use psi_code.Prelude.{
  ℕ, suc, ◌+◌, ◌<◌, ◌≡◌, refl, ap, ◌∙◌, Bool, true, false, ◌||◌, ◌&&◌, Option, none, some, List, [],
  ◌∷◌, ◌++◌, map, append_assoc, append-nil, arith, Bytes, length, ◌==◌, if◌then◌else◌,
}
use psi_code.Screen.{
  Output, sync_begin, sync_end, cursor_hide, cursor_show, reset_style, clear_line, close_osc8,
  clear_screen, move, chunk, flushed, line_chunks, write_frame_line_text, draw_frame_line, draw_all,
  clear_rows,
}

-- Behind written text the column is unknown.
pub record Terminal : Type 0 where
  pub rows : ℕ → Bytes
  pub row : ℕ
  pub col : Option ℕ
  pub visible : Bool
  pub sync : Bool

abbrev pub put : ℕ → Bytes → (ℕ → Bytes) → ℕ → Bytes
put at text rows r = if r == at then text else rows r

abbrev pub apply : Output → Terminal → Terminal
apply sync_begin t = record t { sync = true }
apply sync_end t = record t { sync = false }
apply cursor_hide t = record t { visible = false }
apply cursor_show t = record t { visible = true }
apply reset_style t = t
apply close_osc8 t = t
apply clear_line t = record t { rows = put t.row [] t.rows }
apply clear_screen t = record t { rows = λ r. []; row = 1; col = some 1 }
apply (move row col) t = record t { row = row; col = some col }
apply (chunk s) t = record t { rows = put t.row (t.rows t.row ++ s) t.rows; col = none }

unfoldable pub run : List Output → Terminal → Terminal
run [] t = t
run (o ∷ os) t = run os (apply o t)

pub run-append : (os ps : List Output) (t : Terminal) → run (os ++ ps) t ≡ run ps (run os t)
unfolding run
run-append [] ps t = refl
run-append (o ∷ os) ps t = run-append os ps (apply o t)

-- A line of a frame on the screen: every line break is a blank.
unfoldable pub shown : Bytes → Bytes
shown [] = []
shown (c ∷ []) = (if c == 0x0d || c == 0x0a then b' ' else c) ∷ []
shown (c ∷ (d ∷ s)) =
    let behind_pair = b' ' ∷ shown s in
    let further = (if c == 0x0d || c == 0x0a then b' ' else c) ∷ shown (d ∷ s) in
    if c == 0x0d && d == 0x0a then behind_pair else further

-- The rows from one on show some lines, and the others are those of a base.
unfoldable pub over : ℕ → List Bytes → (ℕ → Bytes) → ℕ → Bytes
over top [] base r = base r
over top (l ∷ ls) base r = if r == top then l else over (top + 1) ls base r

-- What drawing on one row does to a terminal.
pub record Written (at : ℕ) (text : Bytes) (t u : Terminal) : Type 0 where
  pub rows : (r : ℕ) → u.rows r ≡ put at text t.rows r
  pub row : u.row ≡ at
  pub visible : u.visible ≡ t.visible
  pub sync : u.sync ≡ t.sync

joined : List Bytes → Bytes
joined [] = []
joined (b ∷ bs) = b ++ joined bs

flushed-joined : (held : Bytes) (out : List Bytes) → joined (flushed held out) ≡ held ++ joined out
unfolding joined
flushed-joined [] out = refl
flushed-joined (b ∷ bs) out = refl

chunks-joined : (held s : Bytes) → joined (line_chunks held s) ≡ held ++ shown s
unfolding line_chunks shown joined
chunks-joined held [] = flushed-joined held []
chunks-joined held (c ∷ []) = ground (
  arith,
  flushed-joined held ((b' ' ∷ []) ∷ []),
  flushed-joined (held ++ (c ∷ [])) [],
  append-nil (held ++ (c ∷ [])),
)
chunks-joined held (c ∷ (d ∷ s)) = ground (
  arith,
  flushed-joined held ((b' ' ∷ []) ∷ line_chunks [] s),
  flushed-joined held ((b' ' ∷ []) ∷ line_chunks [] (d ∷ s)),
  chunks-joined [] s,
  chunks-joined [] (d ∷ s),
  chunks-joined (held ++ (c ∷ [])) (d ∷ s),
  append_assoc held (c ∷ []) (shown (d ∷ s)),
)

chunks-Written :
    (bs : List Bytes) (t : Terminal)
    → Written t.row (t.rows t.row ++ joined bs) t (run (map chunk bs) t)
unfolding joined run
chunks-Written [] t = record {
  rows = λ r. ground (arith, append-nil (t.rows t.row));
  row = refl;
  visible = refl;
  sync = refl;
}
chunks-Written (b ∷ bs) t =
    let u = apply (chunk b) t in
    let w = chunks-Written bs u in
    record {
      rows = λ r. ground (arith, w.rows r, append_assoc (t.rows t.row) b (joined bs));
      row = w.row;
      visible = w.visible;
      sync = w.sync;
    }

-- Drawing a line of a frame leaves the text on its row and touches no other row.
pub draw_frame_line-Written :
    (at : ℕ) (text : Bytes) (t : Terminal)
    → Written at (shown text) t (run (draw_frame_line at text) t)
unfolding draw_frame_line write_frame_line_text run
draw_frame_line-Written at text t =
    let clean = apply clear_line (apply (move at 1) t) in
    let w = chunks-Written (line_chunks [] text) clean in
    let chunks = map chunk (line_chunks [] text) in
    let e : run (chunks ++ (reset_style ∷ (close_osc8 ∷ []))) clean ≡ run chunks clean =
      run-append chunks (reset_style ∷ (close_osc8 ∷ [])) clean in
    rw (run, e)
      record {
        rows = λ r. ground (arith, w.rows r, chunks-joined [] text);
        row = w.row;
        visible = w.visible;
        sync = w.sync;
      }

-- What the rows are when lines have been drawn from a row on.
pub record Drawn (rows : ℕ → Bytes) (t u : Terminal) : Type 0 where
  pub drawn : (r : ℕ) → u.rows r ≡ rows r
  pub visible : u.visible ≡ t.visible
  pub sync : u.sync ≡ t.sync

pub over-put :
    (top at : ℕ) (ls : List Bytes) (text : Bytes) (base : ℕ → Bytes) (r : ℕ)
    → at < top
    → over top ls (put at text base) r ≡ put at text (over top ls base) r
unfolding over
over-put top at [] text base r h = refl
over-put top at (l ∷ ls) text base r h =
    ground (arith, over-put (top + 1) at ls text base r (omega arith))

pub over-base :
    (top : ℕ) (ls : List Bytes) (f g : ℕ → Bytes)
    → ((r : ℕ) → f r ≡ g r)
    → (r : ℕ) → over top ls f r ≡ over top ls g r
unfolding over
over-base top [] f g h r = h r
over-base top (l ∷ ls) f g h r = ground (arith, over-base (top + 1) ls f g h r)

pub draw_all-Drawn :
    (top : ℕ) (ls : List Bytes) (t : Terminal)
    → Drawn (over top (map shown ls) t.rows) t (run (draw_all top ls) t)
unfolding draw_all over run
draw_all-Drawn top [] t = record { drawn = λ r. refl; visible = refl; sync = refl }
draw_all-Drawn top (l ∷ ls) t =
    let u = run (draw_frame_line top l) t in
    let w = draw_frame_line-Written top l t in
    let d = draw_all-Drawn (top + 1) ls u in
    rw (run-append (draw_frame_line top l) (draw_all (top + 1) ls) t) record {
      drawn = λ r.
          d.drawn r
          ∙ over-base (top + 1) (map shown ls) u.rows (put top (shown l) t.rows) w.rows r
          ∙ over-put (top + 1) top (map shown ls) (shown l) t.rows r (omega arith);
      visible = d.visible ∙ w.visible;
      sync = d.sync ∙ w.sync;
    }

-- Rows that are cleared.
abbrev pub blank_lines : List Bytes → List Bytes
blank_lines ls = map (λ l. []) ls

pub clear_rows-Drawn :
    (top : ℕ) (ls : List Bytes) (t : Terminal)
    → Drawn (over top (blank_lines ls) t.rows) t (run (clear_rows top ls) t)
unfolding clear_rows over run
clear_rows-Drawn top [] t = record { drawn = λ r. refl; visible = refl; sync = refl }
clear_rows-Drawn top (l ∷ ls) t =
    let u = apply clear_line (apply (move top 1) t) in
    let d = clear_rows-Drawn (top + 1) ls u in
    record {
      drawn = λ r. d.drawn r ∙ over-put (top + 1) top (blank_lines ls) [] t.rows r (omega arith);
      visible = d.visible;
      sync = d.sync;
    }

abbrev pub blank : ℕ → Bytes
blank r = []

-- Lines over as many others hide them.
pub over-over :
    (top : ℕ) (new old : List Bytes) (base : ℕ → Bytes) (r : ℕ)
    → length new ≡ length old
    → over top new (over top old base) r ≡ over top new base r
unfolding over
over-over top [] [] base r h = refl
over-over top [] (o ∷ old) base r h = absurd (omega arith)
over-over top (n ∷ new) [] base r h = absurd (omega arith)
over-over top (n ∷ new) (o ∷ old) base r h =
    let under = over (top + 1) old base in
    let e =
      over-base (top + 1) new (over top (o ∷ old) base) (put top o under) (λ q. refl) r
      ∙ over-put (top + 1) top new o under r (omega arith) in
    let ih : over (top + 1) new under r ≡ over (top + 1) new base r =
      over-over (top + 1) new old base r (omega arith) in
    ground (arith, e, ih)

pub over-blank_lines : (top : ℕ) (ls : List Bytes) (r : ℕ) → over top (blank_lines ls) blank r ≡ []
unfolding over
over-blank_lines top [] r = refl
over-blank_lines top (l ∷ ls) r = ground (arith, over-blank_lines (top + 1) ls r)

pub length-blank_lines : (ls : List Bytes) → length (blank_lines ls) ≡ length (map shown ls)
length-blank_lines [] = refl
length-blank_lines (l ∷ ls) = ap suc (length-blank_lines ls)

pub length-shown : (ls : List Bytes) → length (map shown ls) ≡ length ls
length-shown [] = refl
length-shown (l ∷ ls) = ap suc (length-shown ls)
