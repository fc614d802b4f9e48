-- ===== src/Process/Write/Tests.antt =====
-- Runs of the writes to a child, src/core/process.c.
use psi_code.Prelude.{
  inl, ℕ, ◌≡◌, refl, Bool, true, false, none, some, List, [], ◌∷◌, codes, ok, error,
}
use psi_code.Process.Poll.{Handle, abort_if}
use psi_code.Process.Write.{Attempt, wrote, full, written, process_write, write_loop}
use psi_code.Process.Write.Sends.{
  Sends, retry, process_write-Sends, process_write-retry, process_write-stalls,
}

abbrev granting : ℕ → Bool
granting n = true

abbrev child : Handle
child = record {
  output = record { text = []; capacity = 0; alloc = granting; asked = 0 };
  truncated = false;
  aborted = false;
  eof_seen = false;
  reaped = false;
  signals = 0;
}

-- Two bytes, a full pipe, and the rest.
abbrev script : List Attempt
script =
    record { signal = false; answer = wrote 1 }
    ∷ (record { signal = false; answer = full }
        ∷ (record { signal = false; answer = wrote 2 } ∷ []))

sent_whole :
    process_write true script (codes "hello") child ≡ some (written ok (codes "hello") [] child)
unfolding process_write write_loop
sent_whole = refl

abbrev held_up : Attempt
held_up = record { signal = true; answer = full }

-- The abort signal stops a write once, with one SIGTERM.
stopped :
    process_write true (held_up ∷ []) (codes "x") child
    ≡ some (written error [] (codes "x") (record child { aborted = true; signals = 1 }))
unfolding process_write write_loop abort_if
stopped = refl

process_write-Sends_example :
    Sends script [] (codes "hello") (process_write true script (codes "hello") child)
process_write-Sends_example = process_write-Sends script (codes "hello") child

process_write-retry_example :
    process_write true script (codes "hello") child ≡ retry script [] (codes "hello") child
process_write-retry_example = process_write-retry script (codes "hello") child

process_write-stalls_example :
    process_write true
      (held_up ∷ (record { signal = false; answer = full } ∷ (held_up ∷ [])))
      (codes "x")
      (record child { aborted = true; signals = 1 })
    ≡ none
process_write-stalls_example =
    process_write-stalls (held_up ∷ (record { signal = false; answer = full } ∷ (held_up ∷ [])))
      b'x' [] (record child { aborted = true; signals = 1 }) refl
      (inl refl, (inl refl, (inl refl, tt)))
