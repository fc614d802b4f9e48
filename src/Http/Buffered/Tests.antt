-- ===== src/Http/Buffered/Tests.antt =====
-- Runs of a buffered request, src/core/http_buffered.c.
use psi_code.Prelude.{
  ℕ, zero, suc, ◌+◌, ◌*◌, ◌<◌, ◌≡◌, refl, ◌∙◌, Bool, true, false, some, List, [], ◌∷◌, ◌++◌, Bytes,
  codes, length, length-append, arith,
}
use psi_code.Http.Buffered.{
  max_bytes, Call, Curl, no_response, over_limit, receive, buffer_callback, next_capacity, grow,
  http_post, succeeded,
}
use psi_code.Http.Buffered.Body.{handed}
use psi_code.Http.Buffered.Request.{Answered, Documented, http_post-Answered, http_post-limit}

abbrev piece : Bytes → ℕ → Call
piece s n = record { granted = true; size = 1; nmemb = n; contents = s }

abbrev curl_with : Bool → List Call → Curl
curl_with code calls = record {
  ready = true;
  built = true;
  calls = calls;
  code_ok = code;
  status_code = 200;
  error_buffer = [];
  strerror = codes "Failed writing received data";
  duplicated = true;
}

abbrev two_pieces : List Call
two_pieces = piece (codes "{\"a\":") 5 ∷ (piece (codes "1}") 2 ∷ [])

two_pieces_body : (http_post (curl_with true two_pieces)).body ≡ some (codes "{\"a\":1}")
unfolding http_post succeeded receive buffer_callback next_capacity grow
two_pieces_body = refl

all_taken : Documented (curl_with true two_pieces)
unfolding receive buffer_callback next_capacity grow
all_taken h = refl

http_post-Answered_example :
    Answered (curl_with true two_pieces) (http_post (curl_with true two_pieces))
http_post-Answered_example =
    http_post-Answered (curl_with true two_pieces) (refl, (refl, tt)) all_taken

-- A body of one byte more than 16 MiB.
zeros : ℕ → Bytes
zeros zero = []
zeros (suc n) = 0 ∷ zeros n

length-zeros : (n : ℕ) → length (zeros n) ≡ n
unfolding zeros
length-zeros zero = refl
length-zeros (suc n) = omega (arith, length-zeros n)

abbrev big : ℕ
big = max_bytes + 1

abbrev too_big : List Call
too_big = piece (zeros big) big ∷ []

one_each : length (zeros big) ≡ 1 * big
one_each = length-zeros big ∙ times_one big
  where
    times_one : (n : ℕ) → n ≡ 1 * n
    times_one n = omega arith

not_ok : Documented (curl_with false too_big)
not_ok h = absurd (cc h)

beyond_limit : max_bytes < length (handed too_big)
beyond_limit = longer (zeros big) (length-zeros big)
  where
    longer : (s : Bytes) → length s ≡ big → max_bytes < length (s ++ [])
    longer s h = omega (arith, length-append s [], h)

http_post-limit_example :
    http_post (curl_with false too_big) ≡ record no_response { message = some over_limit }
http_post-limit_example =
    http_post-limit (curl_with false too_big) (one_each, tt) (refl, tt) not_ok refl beyond_limit
