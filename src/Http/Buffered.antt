-- ===== src/Http/Buffered.antt =====
-- The buffered requests of src/core/http_buffered.c, over the calls that curl makes of the write
-- callback.
pub mod Growth
pub mod Body
pub mod Request
mod Tests
use psi_code.Prelude.{
  ℕ, zero, suc, ◌+◌, ◌-◌, ◌*◌, ◌/◌, ◌%◌, Bool, true, false, not, ◌&&◌, ◌||◌, Option, none, some,
  List, [], ◌∷◌, ◌++◌, Bytes, codes, length, take, size_mod, size_max, ◌==◌, ltb, leb,
  if◌then◌else◌, Status, ok, error,
}

-- `PSI_HTTP_BUFFERED_MAX_BYTES`
abbrev pub max_bytes : ℕ
max_bytes = 16 * 1024 * 1024

-- `struct psi_http_buffer`. `bytes` is what the memory holds in front of its NUL; a capacity of 0 is a
-- null `data`.
pub record Buffer : Type 0 where
  pub bytes : Bytes
  pub length : ℕ
  pub capacity : ℕ
  pub too_large : Bool

abbrev pub no_buffer : Buffer
no_buffer = record { bytes = []; length = 0; capacity = 0; too_large = false }

-- `while (required > next_capacity)`. A round adds a byte at least, so as many rounds as bytes are
-- required are enough.
unfoldable pub grow : ℕ → ℕ → ℕ → ℕ
grow zero next required = next
grow (suc fuel) next required =
    let doubled = grow fuel (next * 2 % size_mod) required in
    if ltb next required then (if ltb max_bytes next then required else doubled) else next

unfoldable pub next_capacity : ℕ → ℕ → ℕ
unfolding grow
next_capacity capacity required =
    let next = grow required (if capacity == 0 then 4096 else capacity) required in
    if ltb (max_bytes + 1) next then max_bytes + 1 else next

abbrev pub refuse : Buffer → ℕ × Buffer
refuse b = (0, record b { too_large = true })

-- `memcpy` of the contents behind the bytes, in memory of this capacity.
abbrev pub copied : ℕ → ℕ → Bytes → Buffer → ℕ × Buffer
copied capacity total contents b = (
  total,
  record b {
    bytes = take b.length b.bytes ++ take total contents;
    length = b.length + total;
    capacity = capacity;
  },
)

-- `psi_http_buffer_callback`, where `granted` answers the realloc.
unfoldable pub buffer_callback : Bool → ℕ → ℕ → Bytes → Buffer → ℕ × Buffer
unfolding next_capacity
buffer_callback granted size nmemb contents b =
    let total = size * nmemb % size_mod in
    let required = b.length + total + 1 in
    let next = next_capacity b.capacity required in
    if not (size == 0) && ltb (size_max / size) nmemb
    then refuse b
    else if ltb max_bytes total || ltb (max_bytes - total) b.length
    then refuse b
    else if leb required b.capacity
    then copied b.capacity total contents b
    else if granted
    then copied next total contents b
    else (0, b)

-- A call of the callback.
pub record Call : Type 0 where
  pub granted : Bool
  pub size : ℕ
  pub nmemb : ℕ
  pub contents : Bytes

-- The calls in their order, and whether each took all that it was handed.
unfoldable pub receive : List Call → Buffer → Bool × Buffer
unfolding buffer_callback
receive [] b = (true, b)
receive (c ∷ cs) b =
    let (taken, b1) = buffer_callback c.granted c.size c.nmemb c.contents b in
    let (all, b2) = receive cs b1 in ((taken == c.size * c.nmemb) && all, b2)

-- What is not of this file: whether curl is set up and a handle built, the calls that
-- `curl_easy_perform` makes and whether it returns CURLE_OK, the HTTP status, the text of an error, and
-- whether `psi_strdup` gets its memory.
pub record Curl : Type 0 where
  pub ready : Bool
  pub built : Bool
  pub calls : List Call
  pub code_ok : Bool
  pub status_code : ℕ
  pub error_buffer : Bytes
  pub strerror : Bytes
  pub duplicated : Bool

-- The status of a request and what its out parameters hold.
pub record Response : Type 0 where
  pub status : Status
  pub status_code : ℕ
  pub body : Option Bytes
  pub body_len : ℕ
  pub message : Option Bytes

abbrev pub strdup : Bool → Bytes → Option Bytes
strdup duplicated text = if duplicated then some text else none

abbrev pub no_response : Response
no_response = record { status = error; status_code = 0; body = none; body_len = 0; message = none }

abbrev pub curl_message : Bytes → Bytes → Bytes
curl_message [] strerror = strerror
curl_message (c ∷ cs) strerror = c ∷ cs

-- `psi_http_set_error`
abbrev pub set_error : Curl → Option Bytes
set_error curl = strdup curl.duplicated (curl_message curl.error_buffer curl.strerror)

abbrev pub over_limit : Bytes
over_limit = codes "HTTP response exceeded byte limit"

unfoldable pub failed : Curl → Buffer → Response
failed curl b = record no_response {
  message = if b.too_large then strdup curl.duplicated over_limit else set_error curl;
}

unfoldable pub succeeded : Curl → Buffer → Response
succeeded curl b =
    let got = record no_response { status_code = curl.status_code } in
    if ltb 0 b.capacity
    then record got { status = ok; body = some b.bytes; body_len = b.length }
    else if curl.duplicated
    then record got { status = ok; body = some []; body_len = b.length }
    else got

-- `psi_http_post` with every out parameter asked for, as src/lua/vm.c does.
unfoldable pub http_post : Curl → Response
unfolding receive failed succeeded
http_post curl =
    let b = (receive curl.calls no_buffer).1 in
    if curl.ready && curl.built
    then (if curl.code_ok then succeeded curl b else failed curl b)
    else no_response
