-- ===== src/Screen/Compare.antt =====
-- What the comparison with the cached lines finds, and the drawing of the changed lines.
use psi_code.Prelude.{
  ℕ, ◌+◌, ◌≡◌, refl, sym, ap, ◌∙◌, Bool, true, false, List, [], ◌∷◌, map, arith, Bytes, length,
  strcmp_eq, strcmp_eq_sound, Bool-cases, inl, inr,
}
use psi_code.Screen.{draw_changed, draw_frame_line}
use psi_code.Screen.Render.{compare_lines, any}
use psi_code.Screen.Terminal.{
  Terminal, put, run, run-append, shown, over, over-put, draw_frame_line-Written,
}

-- With every copy granted the cache ends as the new lines.
pub compare_lines-next :
    (copy : ℕ → Bool) (i : ℕ) (old next : List Bytes)
    → length old ≡ length next
    → (compare_lines copy i old next).granted ≡ true
    → (compare_lines copy i old next).lines ≡ next
unfolding compare_lines
compare_lines-next copy i [] [] h g = refl
compare_lines-next copy i [] (n ∷ ns) h g = absurd (omega arith)
compare_lines-next copy i (p ∷ ps) [] h g = absurd (omega arith)
compare_lines-next copy i (p ∷ ps) (n ∷ ns) h g =
    ground (arith, strcmp_eq_sound p n, compare_lines-next copy (i + 1) ps ns (omega arith))

-- When nothing is marked as changed the lines were the same.
pub compare_lines-same :
    (copy : ℕ → Bool) (i : ℕ) (old next : List Bytes)
    → length old ≡ length next
    → (compare_lines copy i old next).granted ≡ true
    → any (compare_lines copy i old next).changed ≡ false
    → old ≡ next
unfolding compare_lines any
compare_lines-same copy i [] [] h g a = refl
compare_lines-same copy i [] (n ∷ ns) h g a = absurd (omega arith)
compare_lines-same copy i (p ∷ ps) [] h g a = absurd (omega arith)
compare_lines-same copy i (p ∷ ps) (n ∷ ns) h g a =
    ground (arith, strcmp_eq_sound p n, compare_lines-same copy (i + 1) ps ns (omega arith))

-- Where the old lines stand, drawing the changed ones makes the new ones stand.
pub draw_changed-over :
    (copy : ℕ → Bool) (i top : ℕ) (old next : List Bytes) (base : ℕ → Bytes) (t : Terminal)
    → length old ≡ length next
    → (compare_lines copy i old next).granted ≡ true
    → ((r : ℕ) → t.rows r ≡ over top (map shown old) base r)
    → (r : ℕ)
    → (run
          (draw_changed top
            (compare_lines copy i old next).changed
            (compare_lines copy i old next).lines)
          t).rows
        r
      ≡ over top (map shown next) base r
unfolding draw_changed compare_lines over run
draw_changed-over copy i top [] [] base t h g e r = e r
draw_changed-over copy i top [] (n ∷ ns) base t h g e r = absurd (omega arith)
draw_changed-over copy i top (p ∷ ps) [] base t h g e r = absurd (omega arith)
draw_changed-over copy i top (p ∷ ps) (n ∷ ns) base t h g e r = elim (Bool-cases (strcmp_eq p n)) [
  | inl s ↦
      let under : (q : ℕ) → t.rows q ≡ over (top + 1) (map shown ps) (put top (shown p) base) q =
        λ q. e q ∙ sym (over-put (top + 1) top (map shown ps) (shown p) base q (omega arith)) in
      let ih =
        draw_changed-over copy (i + 1) (top + 1) ps ns (put top (shown p) base) t (omega arith)
          (rw s at g) under r
        ∙ over-put (top + 1) top (map shown ns) (shown p) base r (omega arith) in
      rw s (
        ih
        ∙ ap (λ l. put top (shown l) (over (top + 1) (map shown ns) base) r)
            (strcmp_eq_sound p n s))
  | inr s ↦ elim (Bool-cases (copy i)) [
    | inl c ↦
        let drawn = draw_frame_line top n in
        let w = draw_frame_line-Written top n t in
        let under : (q : ℕ)
            → (run drawn t).rows q ≡ over (top + 1) (map shown ps) (put top (shown n) base) q =
          λ q.
            ground (arith, w.rows q, e q, over-put (top + 1) top (map shown ps) (shown n) base q) in
        let rest = compare_lines copy (i + 1) ps ns in
        let ih =
          draw_changed-over copy (i + 1) (top + 1) ps ns (put top (shown n) base) (run drawn t)
            (omega arith) (rw (s, c) at g) under r
          ∙ over-put (top + 1) top (map shown ns) (shown n) base r (omega arith) in
        rw (s, c, run-append drawn (draw_changed (top + 1) rest.changed rest.lines) t) ih
    | inr c ↦ absurd (ground arith)
  ]
]
