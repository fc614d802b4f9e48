-- ===== src/Text/Cluster/Bounds.antt =====
-- The bytes and cells of `psi_vm_text_next_cluster`.
use psi_code.Prelude.{
  ℕ, ◌+◌, ◌*◌, ◌≤◌, ◌≡◌, refl, Bool, false, ◌&&◌, [], ◌∷◌, arith, Bytes, length, drop, length-drop,
  ◌==◌, Bool-cases, inl, inr,
}
use psi_code.Wcwidth.{Tables, Width, minus_one, cells, wcwidth}
use psi_code.Text.Scan.{End, ran, stopped, scan, scan_rule, Ensures, Post}
use psi_code.Text.Utf8.{decode_utf8, decode_utf8_bounds}
use psi_code.Text.Classes.{is_regional_indicator, is_indic_linker, is_indic_consonant}
use psi_code.Text.Cluster.{
  codepoint_width, clamp_width, is_zero_width_cluster_modifier, Chain, Cluster, extend,
  cluster_body, left_with, first_codepoints, next_cluster,
}

clamp_width-le : (w : Width) → clamp_width w ≤ 2
clamp_width-le minus_one = omega arith
clamp_width-le (cells n) = ground arith

codepoint_width-le : (t : Tables) (cp : ℕ) → codepoint_width t cp ≤ 3
unfolding codepoint_width
codepoint_width-le t cp = ground (arith, clamp_width-le (wcwidth t cp))

-- The bytes taken and the bytes left are those of the text, and some are taken already.
abbrev Fits : ℕ → ℕ → Bytes → Chain → Type 0
Fits least total s c = (c.taken + length s ≡ total) × (least ≤ c.taken) × (c.width ≤ 3 * c.taken)

abbrev FitsIn : ℕ → ℕ → Chain → Type 0
FitsIn least total c = (c.taken ≤ total) × (least ≤ c.taken) × (c.width ≤ 3 * c.taken)

extend-keeps :
    (t : Tables) (indic : Bool) (least total cp n : ℕ) (s : Bytes) (c : Chain)
    → 1 ≤ n
    → n ≤ length s
    → Fits least total s c
    → Ensures (Fits least total) (FitsIn least total) s (extend t indic cp n c)
unfolding extend
extend-keeps t indic least total cp n s c h k f =
    let left = length-drop n s in
    let cw = codepoint_width-le t cp in
    elim (Bool-cases (c.chain_valid && is_indic_linker cp)) [
      | inl e1 ↦ rw e1 (h, (omega arith, omega arith, omega arith))
      | inr e1 ↦ elim (Bool-cases (cp == 0x200c)) [
        | inl e2 ↦ rw (e1, e2) (h, (omega arith, omega arith, omega arith))
        | inr e2 ↦ elim (Bool-cases (is_zero_width_cluster_modifier t cp)) [
          | inl e3 ↦ rw (e1, e2, e3) (h, (omega arith, omega arith, omega arith))
          | inr e3 ↦ elim (Bool-cases (cp == 0x200d)) [
            | inl e4 ↦ rw (e1, e2, e3, e4) (h, (omega arith, omega arith, omega arith))
            | inr e4 ↦
                elim (Bool-cases (c.chain_valid && c.linker_pending && is_indic_consonant cp)) [
                  | inl e5 ↦ rw (e1, e2, e3, e4, e5) (h, (omega arith, omega arith, omega arith))
                  | inr e5 ↦ elim (Bool-cases c.saw_zwj) [
                    | inl e6 ↦
                        rw (e1, e2, e3, e4, e5, e6) (h, (omega arith, omega arith, omega arith))
                    | inr e6 ↦ rw (e1, e2, e3, e4, e5, e6) (omega arith, f.1, f.2)
                  ]
                ]
          ]
        ]
      ]
    ]

body-keeps :
    (t : Tables) (indic : Bool) (least total b : ℕ) (bs : Bytes) (c : Chain)
    → Fits least total (b ∷ bs) c
    → Ensures (Fits least total) (FitsIn least total) (b ∷ bs) (cluster_body t indic (b ∷ bs) c)
unfolding cluster_body
body-keeps t indic least total b bs c f =
    let (some_bytes, most) = decode_utf8_bounds b bs in
    let d = decode_utf8 (b ∷ bs) in
    extend-keeps t indic least total d.code d.used (b ∷ bs) c some_bytes most f

used-le : (s : Bytes) → (decode_utf8 s).used ≤ length s
unfolding decode_utf8
used-le [] = omega arith
used-le (b ∷ bs) = (decode_utf8_bounds b bs).1

-- What a cluster is of a text of `total` bytes.
abbrev pub IsWithin : ℕ → Cluster → Type 0
IsWithin total c = (c.used ≤ total) × (1 ≤ c.used) × (c.width ≤ 3 * c.used)

first-IsWithin :
    (t : Tables) (b : ℕ) (bs : Bytes) → IsWithin (length (b ∷ bs)) (first_codepoints t (b ∷ bs))
unfolding first_codepoints
first-IsWithin t b bs =
    let s : Bytes = b ∷ bs in
    let d = decode_utf8 s in
    let cw = codepoint_width-le t d.code in
    let (least, most) = decode_utf8_bounds b bs in
    let second = used-le (drop d.used s) in
    let left = length-drop d.used s in
    elim (Bool-cases (is_regional_indicator d.code)) [
      | inr e ↦ rw e (most, least, omega arith)
      | inl e ↦ elim (Bool-cases (is_regional_indicator (decode_utf8 (drop d.used s)).code)) [
        | inl e2 ↦ rw (e, e2) (omega arith, omega arith, omega arith)
        | inr e2 ↦ rw (e, e2) (most, least, omega arith)
      ]
    ]

left_with-IsWithin :
    (least total : ℕ) (e : End Chain Chain)
    → Post (Fits least total) (FitsIn least total) e
    → (least ≤ (left_with e).used)
      × ((left_with e).used ≤ total)
      × ((left_with e).width ≤ 3 * (left_with e).used)
left_with-IsWithin least total (ran c) f = (f.1, omega (arith, f.0), f.2)
left_with-IsWithin least total (stopped c) f = (f.1, f.0, f.2)

-- A cluster has at least one byte, ends within the text, and is at most three cells wide for each
-- of its bytes.
pub next_cluster-IsWithin :
    (t : Tables) (b : ℕ) (bs : Bytes) → IsWithin (length (b ∷ bs)) (next_cluster t (b ∷ bs))
unfolding next_cluster
next_cluster-IsWithin t b bs =
    let s : Bytes = b ∷ bs in
    let first = first_codepoints t s in
    let indic : Bool = is_indic_consonant (decode_utf8 s).code in
    let (most, least, wide) = first-IsWithin t b bs in
    let left = length-drop first.used s in
    let start : Chain = record {
      width = first.width;
      chain_valid = indic;
      linker_pending = false;
      saw_zwj = false;
      taken = first.used;
    } in
    let (some_bytes, inside, wide_enough) =
      left_with-IsWithin 1 (length s) (scan (cluster_body t indic) first.used s start) (
        scan_rule (Fits 1 (length s)) (FitsIn 1 (length s)) (cluster_body t indic)
          (body-keeps t indic 1 (length s)) first.used s start (omega arith, least, wide)) in
    (inside, some_bytes, wide_enough)

-- The rest of the loop, from a chain that has taken some bytes.
pub scan-takes :
    (t : Tables) (indic : Bool) (s : Bytes) (c : Chain)
    → c.width ≤ 3 * c.taken
    → c.taken ≤ (left_with (scan (cluster_body t indic) 0 s c)).used
scan-takes t indic s c h =
    let total : ℕ = c.taken + length s in
    (left_with-IsWithin c.taken total (scan (cluster_body t indic) 0 s c) (
      scan_rule (Fits c.taken total) (FitsIn c.taken total) (cluster_body t indic)
        (body-keeps t indic c.taken total) 0 s c (refl, omega arith, h))).0
