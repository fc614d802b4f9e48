-- ===== src/Http/Buffered/Body.antt =====
-- What `psi_http_post` of src/core/http_buffered.c makes of the pieces that curl hands on.
use psi_code.Prelude.{
  ℕ, ◌+◌, ◌*◌, ◌<◌, ◌≡◌, refl, sym, ap, ◌∙◌, Bool, true, false, ◌&&◌, ◌⊎◌, inl, inr, List, [], ◌∷◌,
  ◌++◌, Bytes, length, length-append, append-nil, append_assoc, ◌==◌, leb, arith,
}
use psi_code.Http.Buffered.{max_bytes, Buffer, no_buffer, buffer_callback, Call, receive}
use psi_code.Http.Buffered.Growth.{Sound, Taken, all_of, beyond, refused, buffer_callback-Taken}

-- The contents are of the size that is said.
abbrev pub AllHanded : List Call → Type 0
AllHanded [] = Unit
AllHanded (c ∷ cs) = (length c.contents ≡ c.size * c.nmemb) × AllHanded cs

abbrev pub AllGranted : List Call → Type 0
AllGranted [] = Unit
AllGranted (c ∷ cs) = (c.granted ≡ true) × AllGranted cs

abbrev pub handed : List Call → Bytes
handed [] = []
handed (c ∷ cs) = c.contents ++ handed cs

module _ (granted : Bool) (s : Bytes) (b : Buffer) (d : Sound b) where
  Taken-Sound : (r : ℕ × Buffer) → Taken granted s b r → Sound r.1
  Taken-Sound r (all_of n c e sound bytes flag fits) = sound
  Taken-Sound r (beyond h) = record {
    length_bytes = d.length_bytes;
    fits = d.fits;
    nul = d.nul;
    least = d.least;
  }
  Taken-Sound r (refused g fits) = d

  Taken-bytes :
      (r : ℕ × Buffer) (n : ℕ)
      → Taken granted s b r
      → length s ≡ n
      → (r.0 == n) ≡ true
      → r.1.bytes ≡ b.bytes ++ s
  Taken-bytes r n (all_of m c e sound bytes flag fits) l h = bytes
  Taken-bytes r n (beyond o) l h = absurd (ground (arith, d.fits))
  Taken-bytes r n (refused g fits) l h = no_more s (ground arith)
    where
      no_more : (t : Bytes) → length t ≡ 0 → b.bytes ≡ b.bytes ++ t
      no_more [] z = sym (append-nil b.bytes)
      no_more (x ∷ t) z = absurd (omega (arith, z))

  Taken-too_large :
      (r : ℕ × Buffer) → Taken granted s b r → b.too_large ≡ true → r.1.too_large ≡ true
  Taken-too_large r (all_of n c e sound bytes flag fits) h = flag ∙ h
  Taken-too_large r (beyond o) h = refl
  Taken-too_large r (refused g fits) h = h

and_left : (a b : Bool) → (a && b) ≡ true → a ≡ true
and_left true b h = refl
and_left false b h = h

and_right : (a b : Bool) → (a && b) ≡ true → b ≡ true
and_right true b h = h
and_right false b h = absurd (cc (h))

and-true : (a b : Bool) → a ≡ true → (a && b) ≡ b
and-true true b h = refl
and-true false b h = absurd (cc (h))

and-false : (a b : Bool) → a ≡ false → (a && b) ≡ false
and-false true b h = absurd (cc (h))
and-false false b h = refl

-- With the reallocs granted.
abbrev Decided : Bytes → Buffer → ℕ × Buffer → Type 0
Decided s b (n, c) =
    ((n ≡ length s) × (c.length ≡ b.length + length s))
    ⊎ ((n ≡ 0) × (c.too_large ≡ true) × (max_bytes < b.length + length s))

Taken-Decided :
    (granted : Bool) (s : Bytes) (b : Buffer) (r : ℕ × Buffer)
    → granted ≡ true
    → Sound b
    → Taken granted s b r
    → Decided s b r
Taken-Decided granted s b r a d (all_of n c e sound bytes flag fits) = inl (
  e,
  omega (
    arith,
    ap (λ l. length l) bytes,
    length-append b.bytes s,
    sound.length_bytes,
    d.length_bytes,
  ),
)
Taken-Decided granted s b r a d (beyond o) = inr (refl, refl, o)
Taken-Decided granted s b r a d (refused g fits) = absurd (cc (a, g))

receive-too_large :
    (cs : List Call) (b : Buffer)
    → Sound b
    → AllHanded cs
    → b.too_large ≡ true
    → (receive cs b).1.too_large ≡ true
unfolding receive
receive-too_large [] b d h t = t
receive-too_large (c ∷ cs) b d (e, h) t =
    let r = buffer_callback c.granted c.size c.nmemb c.contents b in
    let taken = buffer_callback-Taken c.granted c.size c.nmemb c.contents b d e in
    receive-too_large cs r.1 (Taken-Sound c.granted c.contents b d r taken) h
      (Taken-too_large c.granted c.contents b d r taken t)

-- What is in the buffer when every call took what it was handed.
pub receive-bytes :
    (cs : List Call) (b : Buffer)
    → Sound b
    → AllHanded cs
    → (receive cs b).0 ≡ true
    → Sound (receive cs b).1 × ((receive cs b).1.bytes ≡ b.bytes ++ handed cs)
unfolding receive
receive-bytes [] b d h t = (d, sym (append-nil b.bytes))
receive-bytes (c ∷ cs) b d (e, h) t =
    let r = buffer_callback c.granted c.size c.nmemb c.contents b in
    let taken = buffer_callback-Taken c.granted c.size c.nmemb c.contents b d e in
    let first =
      Taken-bytes c.granted c.contents b d r (c.size * c.nmemb) taken e (and_left _ _ t) in
    let (sound, rest) =
      receive-bytes cs r.1 (Taken-Sound c.granted c.contents b d r taken) h (and_right _ _ t) in
    (sound, rest ∙ ap (λ l. l ++ handed cs) first ∙ append_assoc b.bytes c.contents (handed cs))

same_size : (n m : ℕ) → n ≡ m → (n == m) ≡ true
same_size n m h = ground (arith, h)

no_size : (n m : ℕ) → n ≡ 0 → 0 < m → (n == m) ≡ false
no_size n m z h = ground (arith, z, h)

pub too_much : (n : ℕ) → max_bytes < n → leb n max_bytes ≡ false
too_much n h = ground (arith, h)

-- With the reallocs granted everything is taken up to the limit, and something is refused beyond it.
pub receive-limit :
    (cs : List Call) (b : Buffer)
    → Sound b
    → AllHanded cs
    → AllGranted cs
    → ((receive cs b).0 ≡ leb (b.length + length (handed cs)) max_bytes)
      × (max_bytes < b.length + length (handed cs) → (receive cs b).1.too_large ≡ true)
unfolding receive
receive-limit [] b d h g = (ground (arith, d.fits), λ o. absurd (omega (arith, o, d.fits)))
receive-limit (c ∷ cs) b d (e, h) (a, g) =
    let r = buffer_callback c.granted c.size c.nmemb c.contents b in
    let taken = buffer_callback-Taken c.granted c.size c.nmemb c.contents b d e in
    let sound = Taken-Sound c.granted c.contents b d r taken in
    let sum = length-append c.contents (handed cs) in
    let (all, over) = receive-limit cs r.1 sound h g in
    let k = r.1.length + length (handed cs) in
    let whole = b.length + length (c.contents ++ handed cs) in
    elim (Taken-Decided c.granted c.contents b r a d taken) [
      | inl (n, l) ↦
          let same : k ≡ whole = omega (arith, sum, l) in
          (
            and-true _ _ (same_size r.0 (c.size * c.nmemb) (n ∙ e))
                ∙ all
                ∙ ap (λ n. leb n max_bytes) same,
            λ o. over (omega (arith, o, same)),
          )
      | inr (z, t, o) ↦ (
        and-false _ _ (no_size r.0 (c.size * c.nmemb) z (omega (arith, o, d.fits, e)))
            ∙ sym (too_much whole (omega (arith, sum, o))),
        λ p. receive-too_large cs r.1 sound h t,
      )
    ]

-- A buffer before the first call.
pub no_buffer-Sound : Sound no_buffer
no_buffer-Sound = record {
  length_bytes = refl;
  fits = omega arith;
  nul = omega arith;
  least = omega arith;
}
