-- ===== src/Text/Width/Fits.antt =====
-- What the measures of a line promise for any text.
use psi_code.Prelude.{
  pos, ℕ, zero, suc, ◌+◌, ◌-◌, ◌*◌, ◌^◌, ◌≤◌, ◌<◌, ◌≡◌, refl, ap, false, Option-cases, [], ◌∷◌,
  arith, Bytes, length, length-drop, drop, ◌==◌, ltb, Bool-cases, inl, inr,
}
use psi_code.Wcwidth.{Tables}
use psi_code.Text.Scan.{go, End, ran, stopped, scan, scan_rule, scan-go, Ensures, Post}
use psi_code.Text.Escape.{read_escape, read_escape_bounds}
use psi_code.Text.Cluster.{next_cluster}
use psi_code.Text.Cluster.Bounds.{IsWithin, next_cluster-IsWithin}
use psi_code.Text.Width.{
  unit, width_body, ran_out, visible_width, Seen, index_body, index_of, positive_int,
  byte_index_for_width,
}

unit-IsWithin : (t : Tables) (b : ℕ) (bs : Bytes) → IsWithin (length (b ∷ bs)) (unit t (b ∷ bs))
unfolding unit
unit-IsWithin t b bs = elim (Option-cases (read_escape (b ∷ bs))) [
  | inl e ↦ rw (e, unit) (next_cluster-IsWithin t b bs)
  | inr (n, e) ↦
      let (least, most) = read_escape_bounds (b ∷ bs) n e in rw (e, unit) (most, least, omega arith)
]

scan-shift :
    (t : Tables) (k : ℕ) (s : Bytes) (w : ℕ)
    → ran_out (scan (width_body t) k s w) ≡ w + ran_out (scan (width_body t) k s 0)
unfolding scan width_body
scan-shift t zero [] w = omega arith
scan-shift t (suc k) [] w = omega arith
scan-shift t (suc k) (b ∷ bs) w = scan-shift t k bs w
scan-shift t zero (b ∷ bs) w =
    let c = unit t (b ∷ bs) in
    omega (
      arith,
      scan-shift t (c.used - 1) bs (w + c.width),
      scan-shift t (c.used - 1) bs (0 + c.width),
    )

-- The width of a text is that of what it begins with, and of the rest.
pub visible_width-unit :
    (t : Tables) (b : ℕ) (bs : Bytes)
    → let c = unit t (b ∷ bs) in
      visible_width t (b ∷ bs) ≡ c.width + visible_width t (drop c.used (b ∷ bs))
unfolding visible_width width_body
visible_width-unit t b bs =
    let c = unit t (b ∷ bs) in
    let step : width_body t (b ∷ bs) 0 ≡ go c.used (0 + c.width) = refl in
    let round = ap ran_out (scan-go (width_body t) b bs 0 c.used (unit-IsWithin t b bs).1 step) in
    omega (arith, round, scan-shift t 0 (drop c.used (b ∷ bs)) (0 + c.width))

width-keeps :
    (t : Tables) (total b : ℕ) (bs : Bytes) (w : ℕ)
    → w + 3 * length (b ∷ bs) ≤ 3 * total
    → Ensures
        (λ s w. w + 3 * length s ≤ 3 * total)
        (λ (n : ℕ). n ≤ 3 * total)
        (b ∷ bs)
        (width_body t (b ∷ bs) w)
unfolding width_body
width-keeps t total b bs w h =
    let c = unit t (b ∷ bs) in
    let (most, least, wide) = unit-IsWithin t b bs in
    let left = length-drop c.used (b ∷ bs) in (least, omega arith)

ran_out-le :
    (total : ℕ) (e : End ℕ ℕ)
    → Post (λ s w. w + 3 * length s ≤ 3 * total) (λ (n : ℕ). n ≤ 3 * total) e
    → ran_out e ≤ 3 * total
ran_out-le total (ran w) h = omega arith
ran_out-le total (stopped n) h = h

-- A text is at most three cells wide for each of its bytes.
visible_width-le : (t : Tables) (text : Bytes) → visible_width t text ≤ 3 * length text
unfolding visible_width
visible_width-le t text = ran_out-le (length text) (scan (width_body t) 0 text 0) (
    scan_rule (λ s w. w + 3 * length s ≤ 3 * length text) (λ n. n ≤ 3 * length text) (width_body t)
      (width-keeps t (length text)) 0 text 0 (omega arith))

-- While the loop goes on, what it has seen fits and the rest is as wide as is missing.
abbrev Splits : ℕ → ℕ → ℕ → Tables → Bytes → Seen → Type 0
Splits width total seen t s a =
    (a.at + length s ≡ total) × (a.cells_seen + visible_width t s ≡ seen) × (a.cells_seen ≤ width)

abbrev StopsEarly : ℕ → ℕ → ℕ → ℕ → Type 0
StopsEarly width total seen i = (i < total) × (width < seen)

index-keeps :
    (t : Tables) (width total seen b : ℕ) (bs : Bytes) (a : Seen)
    → Splits width total seen t (b ∷ bs) a
    → Ensures
        (Splits width total seen t)
        (StopsEarly width total seen)
        (b ∷ bs)
        (index_body t width (b ∷ bs) a)
unfolding index_body unit
index-keeps t width total seen b bs a (places, sum, fits) =
    let s : Bytes = b ∷ bs in
    let split = visible_width-unit t b bs in
    elim (Option-cases (read_escape s)) [
      | inr (n, e) ↦
          let (least, most) = read_escape_bounds s n e in
          let left = length-drop n s in
          let split2 = rw (e, unit) at split in
          rw (e, index_body) (least, (omega arith, omega arith, fits))
      | inl e ↦
          let c = next_cluster t s in
          let (most, least, wide) = next_cluster-IsWithin t b bs in
          let left = length-drop c.used s in
          let split2 = rw (e, unit) at split in
          elim (Bool-cases (ltb width (a.cells_seen + c.width))) [
            | inl over ↦ rw (e, over, index_body) (omega arith, ground arith)
            | inr room ↦ rw (e, room, index_body) (least, (omega arith, omega arith, ground arith))
          ]
    ]

Answers : ℕ → Bytes → Tables → ℕ → Type 0
Answers width text t i =
    (visible_width t text ≤ width → i ≡ length text)
    × (width < visible_width t text → i < length text)

index_of-Answers :
    (t : Tables) (text : Bytes) (width : ℕ) (e : End Seen ℕ)
    → Post
        (Splits width (length text) (visible_width t text) t)
        (StopsEarly width (length text) (visible_width t text))
        e
    → Answers width text t (index_of (length text) e)
unfolding visible_width Answers scan
index_of-Answers t text width (ran a) (places, sum, fits) =
    let empty : visible_width t [] ≡ 0 = refl in (λ f. refl, λ over. absurd (omega arith))
index_of-Answers t text width (stopped i) (early, over) = (λ fits. absurd (omega arith), λ o. early)

-- For a positive width below 2^31 byte_index_for_width is the whole length when the visible width
-- of the text is at most the width, and less when it is more.
pub byte_index_for_width-fits :
    (t : Tables) (text : Bytes) (width : ℕ)
    → 1 ≤ width
    → width < 2 ^ 31
    → (visible_width t text ≤ width → byte_index_for_width t text (pos width) ≡ length text)
      × (width < visible_width t text → byte_index_for_width t text (pos width) < length text)
unfolding byte_index_for_width Answers
byte_index_for_width-fits t text width h small =
    let kept : positive_int width ≡ width = ground arith in
    let positive : (width == 0) ≡ false = ground arith in
    let start : Seen = record { at = 0; cells_seen = 0 } in
    rw (kept, positive, byte_index_for_width)
      (index_of-Answers t text width (scan (index_body t width) 0 text start) (
        scan_rule (Splits width (length text) (visible_width t text) t)
          (StopsEarly width (length text) (visible_width t text)) (index_body t width)
          (index-keeps t width (length text) (visible_width t text)) 0 text start
          (omega arith, omega arith, omega arith)))
