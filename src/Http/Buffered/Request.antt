-- ===== src/Http/Buffered/Request.antt =====
-- A whole request of src/core/http_buffered.c.
use psi_code.Prelude.{
  ℕ, ◌≤◌, ◌<◌, ◌≡◌, refl, sym, ap, ◌∙◌, Bool, true, false, ◌&&◌, ◌⊎◌, inl, inr, none, some, [], ◌∷◌,
  Bytes, length, ltb, Bool-cases, arith, ok, error,
}
use psi_code.Http.Buffered.{
  max_bytes, Buffer, no_buffer, receive, Curl, Response, no_response, strdup, over_limit, failed,
  succeeded, http_post,
}
use psi_code.Http.Buffered.Growth.{Sound}
use psi_code.Http.Buffered.Body.{
  AllHanded, AllGranted, handed, no_buffer-Sound, receive-bytes, receive-limit, too_much,
}

-- What curl documents: it returns CURLE_OK only where each call of the callback took all that it was
-- handed.
abbrev pub Documented : Curl → Type 0
Documented curl = curl.code_ok ≡ true → (receive curl.calls no_buffer).0 ≡ true

-- The body that was handed on, or an error that has a cause and no body.
pub record Delivered (curl : Curl) (r : Response) : Type 0 where
  pub body : r.body ≡ some (handed curl.calls)
  pub body_len : r.body_len ≡ length (handed curl.calls)
  pub bounded : r.body_len ≤ max_bytes
  pub status_code : r.status_code ≡ curl.status_code
  pub message : r.message ≡ none

pub record Refused (curl : Curl) (r : Response) : Type 0 where
  pub body : r.body ≡ none
  pub body_len : r.body_len ≡ 0
  pub cause : (curl.ready && curl.built && curl.code_ok && curl.duplicated) ≡ false

abbrev pub Answered : Curl → Response → Type 0
Answered curl r = ((r.status ≡ ok) × Delivered curl r) ⊎ ((r.status ≡ error) × Refused curl r)

nothing_held : (s : Bytes) (n : ℕ) → length s ≡ n → n ≡ 0 → s ≡ []
nothing_held [] n l z = refl
nothing_held (c ∷ s) n l z = absurd (omega (arith, l, z))

and_false : (a : Bool) → (a && false) ≡ false
and_false true = refl
and_false false = refl

not_set_up : (x c d : Bool) → x ≡ false → (x && c && d) ≡ false
not_set_up true c d h = absurd (cc (h))
not_set_up false c d h = refl

not_performed : (x c d : Bool) → c ≡ false → (x && c && d) ≡ false
not_performed true true d h = absurd (cc (h))
not_performed true false d h = refl
not_performed false c d h = refl

succeeded-Answered :
    (curl : Curl) (b : Buffer)
    → curl.code_ok ≡ true
    → Sound b
    → b.bytes ≡ handed curl.calls
    → Answered curl (succeeded curl b)
unfolding succeeded
succeeded-Answered curl b k d h =
    let len : b.length ≡ length (handed curl.calls) = sym d.length_bytes ∙ ap (λ s. length s) h in
    elim (Bool-cases (ltb 0 b.capacity)) [
      | inl c ↦ rw c (
          inl (
            refl,
            record {
              body = ap some h;
              body_len = len;
              bounded = d.fits;
              status_code = refl;
              message = refl;
            },
          ))
      | inr c ↦ elim (Bool-cases curl.duplicated) [
        | inl p ↦
            let empty = nothing_held b.bytes b.length d.length_bytes (ground (arith, d.nul)) in
            rw (c, p)
              (inl (
                refl,
                record {
                  body = ap some (sym empty ∙ h);
                  body_len = len;
                  bounded = d.fits;
                  status_code = refl;
                  message = refl;
                },
              ))
        | inr p ↦
            rw (c, p) (inr (refl, record { body = refl; body_len = refl; cause = and_false _ }))
      ]
    ]

-- When each call of the write callback hands on contents of the size that it says, and curl returns
-- CURLE_OK only where each call took all of it, psi_http_post gives the HTTP status and the
-- contents of all calls, with their length, in 16 MiB at most and no message, or fails with no
-- body, and only where curl cannot be set up, the transfer fails or the copy of an empty body is
-- refused.
pub http_post-Answered :
    (curl : Curl) → AllHanded curl.calls → Documented curl → Answered curl (http_post curl)
unfolding http_post failed
http_post-Answered curl h documented = elim (Bool-cases (curl.ready && curl.built)) [
  | inl r ↦ elim (Bool-cases curl.code_ok) [
    | inl k ↦
        let (sound, bytes) = receive-bytes curl.calls no_buffer no_buffer-Sound h (documented k) in
        simp (r, k) (succeeded-Answered curl (receive curl.calls no_buffer).1 k sound bytes)
    | inr k ↦
        simp (r, k)
          (inr (
            refl,
            record {
              body = refl;
              body_len = refl;
              cause = not_performed (curl.ready && curl.built) curl.code_ok curl.duplicated k;
            },
          ))
  ]
  | inr r ↦ simp r (
      inr (
        refl,
        record {
          body = refl;
          body_len = refl;
          cause = not_set_up (curl.ready && curl.built) curl.code_ok curl.duplicated r;
        },
      ))
]

-- Under the same conditions on curl, with every realloc granted and the handle built, a transfer
-- that hands on more than 16 MiB in all fails with no body, no HTTP status and the message of the
-- byte limit, where it can be copied.
pub http_post-limit :
    (curl : Curl)
    → AllHanded curl.calls
    → AllGranted curl.calls
    → Documented curl
    → (curl.ready && curl.built) ≡ true
    → max_bytes < length (handed curl.calls)
    → http_post curl ≡ record no_response { message = strdup curl.duplicated over_limit }
unfolding http_post failed
http_post-limit curl h g documented r o =
    let (all, over) = receive-limit curl.calls no_buffer no_buffer-Sound h g in
    elim (Bool-cases curl.code_ok) [
      | inl k ↦
          let t : true ≡ false = sym (documented k) ∙ all ∙ too_much _ (omega (arith, o)) in
          absurd (cc t)
      | inr k ↦ rw (r, k, over (omega (arith, o))) refl
    ]
