-- ===== src/Text/Escape/Strip.antt =====
-- What `lfn_tui_text_strip_ansi` removes, and what it keeps.
use psi_code.Prelude.{
  ℕ, zero, suc, ◌+◌, ◌≤◌, ◌≡◌, refl, ap, ◌∙◌, sym, Bool, true, false, none, some, [], ◌∷◌, ◌++◌,
  arith, Bytes, drop, length, ◌==◌, append_assoc, append-nil, length-drop, inl, inr, Option-cases,
}
use psi_code.Text.Scan.{go, End, ran, stopped, scan, scan_rule, scan-go, Ensures, Post}
use psi_code.Text.Escape.{
  esc, read_escape, strip_body, finished, strip_ansi, Avoids, is_csi_final, read_escape-csi,
  read_escape_bounds,
}

abbrev pub is_esc : ℕ → Bool
is_esc b = b == esc

not_escape : (b : ℕ) (bs : Bytes) → read_escape (b ∷ bs) ≡ none → is_esc b ≡ false
unfolding read_escape
not_escape b bs e = ground arith

plain : (b : ℕ) (bs : Bytes) → is_esc b ≡ false → read_escape (b ∷ bs) ≡ none
unfolding read_escape
plain b bs h = ground arith

Avoids-append : (p : ℕ → Bool) (s t : Bytes) → Avoids p s → Avoids p t → Avoids p (s ++ t)
Avoids-append p [] t a b = b
Avoids-append p (x ∷ s) t (h, a) b = (h, Avoids-append p s t a b)

strip_body-none :
    (b : ℕ) (bs out : Bytes)
    → read_escape (b ∷ bs) ≡ none
    → strip_body (b ∷ bs) out ≡ go 1 (out ++ (b ∷ []))
unfolding strip_body
strip_body-none b bs out e = rw (e, strip_body)

strip_body-some :
    (b : ℕ) (bs out : Bytes) (n : ℕ)
    → read_escape (b ∷ bs) ≡ some n
    → strip_body (b ∷ bs) out ≡ go n out
unfolding strip_body
strip_body-some b bs out n e = rw (e, strip_body)

keep :
    (b : ℕ) (bs out : Bytes)
    → Avoids is_esc out
    → Ensures (λ s out. Avoids is_esc out) (λ (n : ℕ). Unit) (b ∷ bs) (strip_body (b ∷ bs) out)
keep b bs out a = elim (Option-cases (read_escape (b ∷ bs))) [
  | inl e ↦
      rw (strip_body-none b bs out e)
        (omega arith, Avoids-append is_esc out (b ∷ []) a (not_escape b bs e, tt))
  | inr (n, e) ↦ rw (strip_body-some b bs out n e) ((read_escape_bounds (b ∷ bs) n e).0, a)
]

finished-Avoids :
    (e : End Bytes ℕ)
    → Post (λ s out. Avoids is_esc out) (λ (n : ℕ). Unit) e
    → Avoids is_esc (finished e)
unfolding finished
finished-Avoids (ran out) h = h
finished-Avoids (stopped n) h = tt

-- A stripped text holds no ESC, whatever the text was.
strip_ansi-Avoids : (text : Bytes) → Avoids is_esc (strip_ansi text)
unfolding strip_ansi
strip_ansi-Avoids text =
    finished-Avoids _
      (scan_rule (λ s out. Avoids is_esc out) (λ n. Unit) strip_body keep 0 text [] tt)

-- An accumulated output stays in front.
scan-strip_body :
    (f : ℕ) (s out : Bytes)
    → length s ≤ f
    → finished (scan strip_body 0 s out) ≡ out ++ finished (scan strip_body 0 s [])
scan-strip_body f [] out h = unfold scan finished in sym (append-nil out)
scan-strip_body zero (b ∷ bs) out h = absurd (omega arith)
scan-strip_body (suc f) (b ∷ bs) out h = elim (Option-cases (read_escape (b ∷ bs))) [
  | inl e ↦
      let plain =
        λ (o : Bytes). scan-go strip_body b bs o 1 (omega arith) (strip_body-none b bs o e) in
      ap finished (plain out)
      ∙ scan-strip_body f bs (out ++ (b ∷ [])) (omega arith)
      ∙ append_assoc out (b ∷ []) _
      ∙ ap (λ l. out ++ l)
          (sym (ap finished (plain []) ∙ scan-strip_body f bs (b ∷ []) (omega arith)))
  | inr (n, e) ↦
      let skip = λ (o : Bytes).
        scan-go strip_body b bs o n (read_escape_bounds (b ∷ bs) n e).0
          (strip_body-some b bs o n e) in
      ap finished (skip out)
      ∙ scan-strip_body f (drop n (b ∷ bs)) out
          (omega (arith, length-drop n (b ∷ bs), (read_escape_bounds (b ∷ bs) n e).0))
      ∙ ap (λ l. out ++ l) (sym (ap finished (skip [])))
]

strip_ansi-plain : (b : ℕ) (bs : Bytes) → is_esc b ≡ false → strip_ansi (b ∷ bs) ≡ b ∷ strip_ansi bs
unfolding strip_ansi
strip_ansi-plain b bs h =
    ap finished
      (scan-go strip_body b bs [] 1 (omega arith) (strip_body-none b bs [] (plain b bs h)))
    ∙ scan-strip_body (length bs) bs (b ∷ []) (omega arith)

-- A text without ESC is kept as it is.
strip_ansi-of_Avoids : (text : Bytes) → Avoids is_esc text → strip_ansi text ≡ text
strip_ansi-of_Avoids [] a = unfold strip_ansi scan finished in refl
strip_ansi-of_Avoids (b ∷ bs) (h, a) =
    strip_ansi-plain b bs h ∙ ap (◌∷◌ b) (strip_ansi-of_Avoids bs a)

-- Stripping a stripped text changes nothing.
strip_ansi_idem : (text : Bytes) → strip_ansi (strip_ansi text) ≡ strip_ansi text
strip_ansi_idem text = strip_ansi-of_Avoids (strip_ansi text) (strip_ansi-Avoids text)

drop-suc-append : (s t : Bytes) (x n : ℕ) → n ≡ length s → drop (suc n) (s ++ x ∷ t) ≡ t
drop-suc-append [] t x zero e = refl
drop-suc-append [] t x (suc n) e = absurd (omega arith)
drop-suc-append (y ∷ s) t x zero e = absurd (omega arith)
drop-suc-append (y ∷ s) t x (suc n) e = drop-suc-append s t x n (omega arith)

-- A complete control sequence behind text without ESC is removed and nothing else: the text in
-- front is kept, and what follows is stripped as it is by itself.
pub strip_ansi-csi :
    (pre params rest : Bytes) (final : ℕ)
    → Avoids is_esc pre
    → Avoids is_csi_final params
    → is_csi_final final ≡ true
    → strip_ansi (pre ++ esc ∷ b'[' ∷ (params ++ final ∷ rest)) ≡ pre ++ strip_ansi rest
strip_ansi-csi [] params rest final a p f =
    let tail = b'[' ∷ (params ++ final ∷ rest) in
    unfold strip_ansi in
    ap finished (
      scan-go strip_body esc tail [] (length params + 3) (omega arith)
        (strip_body-some esc tail [] (length params + 3) (read_escape-csi params rest final p f)))
    ∙ ap (λ l. finished (scan strip_body 0 l []))
        (let three : length params + 3 ≡ suc (suc (suc (length params))) = omega arith in
          rw three (drop-suc-append params rest final (length params) refl))
strip_ansi-csi (x ∷ pre) params rest final (h, a) p f =
    strip_ansi-plain x _ h ∙ ap (◌∷◌ x) (strip_ansi-csi pre params rest final a p f)
