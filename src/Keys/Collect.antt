-- ===== src/Keys/Collect.antt =====
-- What the collector of an escape sequence takes from the input.
use psi_code.Prelude.{
  ℕ, suc, ◌+◌, ◌≤◌, ◌≡◌, refl, sym, ap, ◌∙◌, true, false, ◌||◌, List, [], ◌∷◌, ◌++◌, append_assoc,
  arith, Bytes, length, length-append, leb, within, Bool-cases, inl, inr,
}
use psi_code.Keys.{
  Arrival, is_csi_final, has_final, escape_sequence_complete, continue_timeout, collect,
  collect_escape_sequence,
}

-- The bytes of an input.
abbrev pub bytes_of : List Arrival → Bytes
bytes_of [] = []
bytes_of (a ∷ rest) = a.byte ∷ bytes_of rest

-- A split of the input into what is kept, a byte that is lost behind a full buffer, and the rest.
pub record Splits (input : Bytes) (r : Bytes × List Arrival) : Type 0 where
  pub lost : Bytes
  pub whole : input ≡ r.0 ++ (lost ++ bytes_of r.1)
  pub fits : length r.0 ≤ 63
  pub one : length lost ≤ 1
  pub only_full : 1 ≤ length lost → length r.0 ≡ 63

collect-Splits :
    (timeout : ℕ) (held : Bytes) (input : List Arrival)
    → length held ≤ 63
    → Splits (held ++ bytes_of input) (collect timeout held input)
unfolding collect
collect-Splits timeout held [] h = record {
  lost = [];
  whole = refl;
  fits = h;
  one = omega arith;
  only_full = λ n. absurd (omega arith);
}
collect-Splits timeout held (a ∷ rest) h =
    let longer = held ++ (a.byte ∷ []) in
    let whole = sym (append_assoc held (a.byte ∷ []) (bytes_of rest)) in
    elim (Bool-cases (leb a.gap timeout)) [
      | inr late ↦ rw late record {
        lost = [];
        whole = refl;
        fits = h;
        one = omega arith;
        only_full = λ n. absurd (omega arith);
      }
      | inl soon ↦ elim (Bool-cases (leb 64 (length held + 1))) [
        | inl full ↦
            rw (soon, full)
              record {
                lost = a.byte ∷ [];
                whole = refl;
                fits = h;
                one = omega arith;
                only_full = λ n. ground arith;
              }
        | inr room ↦
            let fits : length longer ≤ 63 = ground (arith, length-append held (a.byte ∷ [])) in
            elim (Bool-cases (escape_sequence_complete longer)) [
              | inl done ↦
                  rw (soon, room, done)
                    record {
                      lost = [];
                      whole = whole;
                      fits = fits;
                      one = omega arith;
                      only_full = λ n. absurd (omega arith);
                    }
              | inr more ↦
                  let s = collect-Splits continue_timeout longer rest fits in
                  rw (soon, room, more)
                    record {
                      lost = s.lost;
                      whole = whole ∙ s.whole;
                      fits = s.fits;
                      one = s.one;
                      only_full = s.only_full;
                    }
            ]
      ]
    ]

-- The collector keeps at most 63 bytes, and they are the next ones of the input; it loses none
-- but the one that finds 63 bytes held.
pub collect_escape_sequence-Splits :
    (input : List Arrival) → Splits (bytes_of input) (collect_escape_sequence input)
unfolding collect_escape_sequence
collect_escape_sequence-Splits input = collect-Splits 25 [] input (omega arith)

-- Bytes that arrive one after the other, with a gap in front of each.
abbrev pub typed : (ℕ → ℕ) → Bytes → List Arrival
typed gaps [] = []
typed gaps (b ∷ s) = record { gap = gaps 0; byte = b } ∷ typed (λ n. gaps (suc n)) s

abbrev pub NoFinal : Bytes → Type 0
NoFinal [] = Unit {0}
NoFinal (b ∷ s) = (within 0x40 0x7e b ≡ false) × NoFinal s

pub has_final-append :
    (done : Bytes) (b : ℕ) → has_final (done ++ (b ∷ [])) ≡ has_final done || is_csi_final b
unfolding has_final
has_final-append [] b = ground arith
has_final-append (d ∷ done) b = ground (arith, has_final-append done b)

collect-csi :
    (timeout : ℕ) (gaps : ℕ → ℕ) (done params : Bytes) (final : ℕ) (rest : List Arrival)
    → gaps 0 ≤ timeout
    → ((n : ℕ) → gaps n ≤ 5)
    → has_final done ≡ false
    → NoFinal params
    → within 0x40 0x7e final ≡ true
    → length done + length params ≤ 61
    → collect timeout (b'[' ∷ done) (typed gaps (params ++ (final ∷ [])) ++ rest)
      ≡ (b'[' ∷ (done ++ (params ++ (final ∷ []))), rest)
unfolding collect escape_sequence_complete
collect-csi timeout gaps done [] final rest soon quick clear n f short =
    let in_time : leb (gaps 0) timeout ≡ true = ground arith in
    let room : leb 64 (suc (length done) + 1) ≡ false = ground arith in
    let complete : has_final (done ++ (final ∷ [])) ≡ true =
      ground (arith, has_final-append done final) in
    rw (in_time, room, complete) refl
collect-csi timeout gaps done (p ∷ params) final rest soon quick clear (q, n) f short =
    let in_time : leb (gaps 0) timeout ≡ true = ground arith in
    let room : leb 64 (suc (length done) + 1) ≡ false = ground arith in
    let incomplete : has_final (done ++ (p ∷ [])) ≡ false =
      ground (arith, has_final-append done p) in
    let short' : length (done ++ (p ∷ [])) + length params ≤ 61 =
      omega (arith, length-append done (p ∷ [])) in
    rw (in_time, room, incomplete)
      (collect-csi 5 (λ n. gaps (suc n)) (done ++ (p ∷ [])) params final rest (quick 1)
          (λ n. quick (suc n)) incomplete n f short'
        ∙ ap (λ s. (b'[' ∷ s, rest)) (append_assoc done (p ∷ []) (params ++ (final ∷ []))))

-- A control sequence that arrives at once is collected whole.
pub collect_escape_sequence-csi :
    (gaps : ℕ → ℕ) (params : Bytes) (final : ℕ) (rest : List Arrival)
    → ((n : ℕ) → gaps n ≤ 5)
    → NoFinal params
    → within 0x40 0x7e final ≡ true
    → length params ≤ 61
    → collect_escape_sequence (typed gaps (b'[' ∷ (params ++ (final ∷ []))) ++ rest)
      ≡ (b'[' ∷ (params ++ (final ∷ [])), rest)
unfolding collect_escape_sequence collect escape_sequence_complete has_final
collect_escape_sequence-csi gaps params final rest quick n f short =
    let in_time : leb (gaps 0) 25 ≡ true = ground (arith, quick 0) in
    rw in_time (
      collect-csi 5 (λ n. gaps (suc n)) [] params final rest (quick 1) (λ n. quick (suc n)) refl n f
        (omega arith))
