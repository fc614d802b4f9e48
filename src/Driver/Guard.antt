-- ===== src/Driver/Guard.antt =====
-- The descriptors behind `psi_tui_stdio_guard_begin` and `psi_tui_stdio_guard_end`.
use psi_code.Prelude.{
  ℕ, ◌+◌, ◌≤◌, ◌≡◌, refl, sym, ◌∙◌, Bool, true, false, Option, none, some, arith, ◌==◌,
  if◌then◌else◌, Bool-cases, inl, inr,
}
use psi_code.Driver.{
  File, debug_log, dev_null, Descriptors, answer, later, set, open_log, stdio_guard_end,
  redirect_both, save_both, with_log, stdio_guard_begin,
}
use psi_code.Driver.Saved.{
  nothing_saved, out_saved, err_saved, both, back, both_saved, out_redirected, both_redirected,
  both_kept,
}

-- With the guard ended the descriptors are those of `base`, and no descriptor from `next` on has
-- been open. An open descriptor behind the standard ones is left alone.
pub record Guarded (base : ℕ → Option File) (w : Descriptors) : Type 0 where
  pub fds : (n : ℕ) → (stdio_guard_end w).fds n ≡ base n
  pub fresh : (n : ℕ) → w.next ≤ n → base n ≡ none
  pub standard : 3 ≤ w.next
  pub kept : (n : ℕ) (f : File) → 3 ≤ n → base n ≡ some f → w.fds n ≡ some f
  pub idle :
      w.active ≡ false → (w.stdout_saved ≡ none) × (w.stderr_saved ≡ none) × (w.log_fd ≡ none)

pub stdio_guard_end-Guarded :
    (base : ℕ → Option File) (w : Descriptors) → Guarded base w → Guarded base (stdio_guard_end w)
unfolding stdio_guard_end
stdio_guard_end-Guarded base w g = record {
  fds = g.fds;
  fresh = g.fresh;
  standard = g.standard;
  kept = λ n f s h. g.fds n ∙ h;
  idle = λ h. (refl, refl, refl);
}

-- A log has been opened behind an idle guard.
record Logged (base : ℕ → Option File) (log : ℕ) (w : Descriptors) : Type 0 where
  fds : (n : ℕ) → w.fds n ≡ (if n == log then w.fds log else base n)
  fresh : (n : ℕ) → log ≤ n → base n ≡ none
  next : w.next ≡ log + 1
  standard : 3 ≤ log

true-ne-false : {A : Type 0} → ◌≡◌ {A = Bool} true false → A
true-ne-false h = absurd (cc)

le_two_more : (n : ℕ) → n ≤ n + 1 + 1
le_two_more n = omega arith

le_one_more : (n : ℕ) → n ≤ n + 1
le_one_more n = omega arith

le_same : (n : ℕ) → n ≤ n
le_same n = omega arith

module _ (base : ℕ → Option File) (log : ℕ) (w : Descriptors) (l : Logged base log w) where
  gave_up :
      (u : Descriptors)
      → ((n : ℕ) → u.fds n ≡ base n)
      → w.next ≤ u.next
      → (u.stdout_saved ≡ none) × (u.stderr_saved ≡ none) × (u.log_fd ≡ none)
      → Guarded base u
  unfolding stdio_guard_end
  gave_up u e h (out, err, saved) = record {
    fds = λ n. rw (out, err, saved) (e n);
    fresh = λ n le. l.fresh n (omega (arith, l.next));
    standard = omega (arith, l.next, l.standard);
    kept = λ n f s b. e n ∙ b;
    idle = λ i. (out, err, saved);
  }

  began :
      (u : Descriptors)
      → ((n : ℕ) → (stdio_guard_end u).fds n ≡ base n)
      → ((n : ℕ) (f : File) → 3 ≤ n → base n ≡ some f → u.fds n ≡ some f)
      → w.next ≤ u.next
      → u.active ≡ true
      → Guarded base u
  began u e k h a = record {
    fds = e;
    fresh = λ n le. l.fresh n (omega (arith, l.next));
    standard = omega (arith, l.next, l.standard);
    kept = k;
    idle = λ i. true-ne-false (sym a ∙ i);
  }

  save_both-Guarded : Guarded base (save_both log w).1
  unfolding save_both stdio_guard_end redirect_both back both
  save_both-Guarded =
      let x = w.fds log in
      elim (Bool-cases (answer w.answers)) [
        | inl a ↦ elim (Bool-cases (answer (later w.answers))) [
          | inl b ↦ elim (Bool-cases (answer (later (later w.answers)))) [
            | inl c ↦ elim (Bool-cases (answer (later (later (later w.answers))))) [
              | inl d ↦
                  rw (a, b, c, d)
                    (began _
                      (both_redirected base w.fds log w.next x l.fds l.fresh l.next l.standard _ _)
                      (both_kept base w.fds log w.next x l.fds l.fresh l.next l.standard _ _)
                      (le_two_more w.next) refl)
              | inr d ↦
                  rw (a, b, c, d)
                    (gave_up _
                      (out_redirected base w.fds log w.next x l.fds l.fresh l.next l.standard _)
                      (le_two_more w.next) (refl, refl, refl))
            ]
            | inr c ↦
                rw (a, b, c)
                  (gave_up _ (both_saved base w.fds log w.next x l.fds l.fresh l.next l.standard)
                    (le_two_more w.next) (refl, refl, refl))
          ]
          | inr b ↦
              rw (a, b)
                (gave_up _ (out_saved base w.fds log w.next x l.fds l.fresh l.next l.standard)
                  (le_one_more w.next) (refl, refl, refl))
        ]
        | inr a ↦ elim (Bool-cases (answer (later w.answers))) [
          | inl b ↦
              rw (a, b)
                (gave_up _ (err_saved base w.fds log w.next x l.fds l.fresh l.next l.standard)
                  (le_one_more w.next) (refl, refl, refl))
          | inr b ↦
              rw (a, b)
                (gave_up _ (nothing_saved base w.fds log w.next x l.fds l.fresh l.next l.standard)
                  (le_same w.next) (refl, refl, refl))
        ]
      ]

-- The descriptors of a guard that is idle.
idle-fds :
    (base : ℕ → Option File) (w : Descriptors)
    → Guarded base w
    → w.active ≡ false
    → (n : ℕ) → w.fds n ≡ base n
unfolding stdio_guard_end
idle-fds base w g h n = let (out, err, log) = g.idle h in rw (out, err, log) at (g.fds n)

with_log-Guarded :
    (base : ℕ → Option File) (w : Descriptors)
    → Guarded base w
    → w.active ≡ false
    → Guarded base (with_log (open_log w)).1
unfolding open_log stdio_guard_end
with_log-Guarded base w g h =
    let fds = idle-fds base w g h in
    let logged : (f : Option File) (n : ℕ)
        → set w.next f w.fds n ≡ (if n == w.next then set w.next f w.fds w.next else base n) =
      λ f n. ground (arith, fds n) in
    elim (Bool-cases (answer w.answers)) [
      | inl a ↦ rw a (
          save_both-Guarded base w.next _ record {
            fds = logged (some debug_log);
            fresh = g.fresh;
            next = refl;
            standard = g.standard;
          })
      | inr a ↦ elim (Bool-cases (answer (later w.answers))) [
        | inl b ↦
            rw (a, b)
              (save_both-Guarded base w.next _ record {
                fds = logged (some dev_null);
                fresh = g.fresh;
                next = refl;
                standard = g.standard;
              })
        | inr b ↦
            rw (a, b)
              record {
                fds = g.fds;
                fresh = g.fresh;
                standard = g.standard;
                kept = g.kept;
                idle = g.idle;
              }
      ]
    ]

either :
    (base : ℕ → Option File) (b : Bool) (x y : Bool × Descriptors)
    → (b ≡ true → Guarded base x.1)
    → (b ≡ false → Guarded base y.1)
    → Guarded base (if b then x else y).1
either base true x y h k = h refl
either base false x y h k = k refl

-- Whatever the system answers, the guard begins so that its end gives every descriptor back.
pub stdio_guard_begin-Guarded :
    (base : ℕ → Option File) (w : Descriptors)
    → Guarded base w
    → Guarded base (stdio_guard_begin w).1
unfolding stdio_guard_begin
stdio_guard_begin-Guarded base w g =
    either base w.active (true, w) (with_log (open_log w)) (λ busy. g) (with_log-Guarded base w g)

-- The copy of stdout that is taken before the guard begins.
module _ (base : ℕ → Option File) (io : Descriptors) (g : Guarded base io)
    (idle : io.active ≡ false) (x : Option File) (standard : base 1 ≡ x) where
  opened-fds : (n : ℕ) → set io.next (io.fds 1) io.fds n ≡ set io.next x base n
  opened-fds n = ground (arith, idle-fds base io g idle n, idle-fds base io g idle 1)

  pub opened-Guarded : Guarded (set io.next x base) (record io {
    fds = set io.next (io.fds 1) io.fds;
    next = io.next + 1;
    answers = later io.answers;
  })
  unfolding stdio_guard_end
  opened-Guarded =
      let (out, err, log) = g.idle idle in
      record {
        fds = λ n. rw (out, err, log) (opened-fds n);
        fresh = λ n le. ground (arith, g.fresh n);
        standard = omega (arith, g.standard);
        kept = λ n f s h. opened-fds n ∙ h;
        idle = g.idle;
      }
