-- ===== src/Driver/Saved.antt =====
-- The descriptors that `psi_tui_stdio_guard_begin` saves, put back (src/runtime/tui_mode.c).
use psi_code.Prelude.{ℕ, ◌+◌, ◌≤◌, ◌≡◌, Option, none, some, arith, ◌==◌, if◌then◌else◌}
use psi_code.Driver.{File, set, close, put_back}

-- The descriptors with what has been saved put back, where `next` is the first new one.
module _ (base f : ℕ → Option File) (log next : ℕ) (x : Option File)
    (others : (n : ℕ) → f n ≡ (if n == log then x else base n))
    (fresh : (n : ℕ) → log ≤ n → base n ≡ none) (e : next ≡ log + 1) (standard : 3 ≤ log) where
  pub nothing_saved : (n : ℕ) → set log none f n ≡ base n
  nothing_saved n = ground (arith, others n, fresh n)

  pub out_saved : (n : ℕ) → close (some log) (put_back 1 (some next) (set next (f 1) f)) n ≡ base n
  out_saved n = ground (arith, others n, others 1, fresh n)

  pub err_saved : (n : ℕ) → close (some log) (put_back 2 (some next) (set next (f 2) f)) n ≡ base n
  err_saved n = ground (arith, others n, others 2, fresh n)

  unfoldable pub both : ℕ → Option File
  both = set (next + 1) (set next (f 1) f 2) (set next (f 1) f)

  unfoldable pub back : (ℕ → Option File) → ℕ → Option File
  back g = close (some log) (put_back 2 (some (next + 1)) (put_back 1 (some next) g))

  pub both_saved : (n : ℕ) → back both n ≡ base n
  unfolding back both
  both_saved n = ground (arith, others n, others 1, others 2, fresh n)

  pub out_redirected : (y : Option File) (n : ℕ) → back (set 1 y both) n ≡ base n
  unfolding back both
  out_redirected y n = ground (arith, others n, others 1, others 2, fresh n)

  pub both_redirected : (y z : Option File) (n : ℕ) → back (set 2 z (set 1 y both)) n ≡ base n
  unfolding back both
  both_redirected y z n = ground (arith, others n, others 1, others 2, fresh n)

  pub both_kept :
      (y z : Option File) (n : ℕ) (u : File)
      → 3 ≤ n
      → base n ≡ some u
      → set 2 z (set 1 y both) n ≡ some u
  unfolding both
  both_kept y z n u s h = ground (arith, others n, others 1, others 2, fresh n)
