-- ===== src/Client/Answers.antt =====
-- The client understands what the server answers.
use smc_server_client.Common.{
  ℕ, ◌+◌, ◌^◌, ◌<◌, Option, none, some, [], ◌++◌, Bytes, length, drop, ◌>>=◌, pure, bind-some, ◌≡◌,
  refl, sym, ap, ◌∙◌, arith, append-nil, append_assoc, length-append,
}
use smc_server_client.Wire.{
  Analyzer, int_range, set_data, clear_error, extract_int, extract_string, extract_buffer,
  insert_string,
}
use smc_server_client.Wire.Digits.{le_bytes}
use smc_server_client.Wire.Analyze.{IsValid, unread, advance, advance-IsValid, unread-advance}
use smc_server_client.Wire.RoundTrip.{
  insert_int-le_bytes, insert_buffer-fits, extract_int-le_bytes, extract_buffer-le_bytes,
}
use smc_server_client.Network.{Transport, read_buffer}
use smc_server_client.Network.Stream.{IsStream}
use smc_server_client.Network.Delivery.{frame, read_buffer-pending}
use smc_server_client.Protocol.Response.{ResponseError, error_code, error_of_code, type_code}
use smc_server_client.Server.Reply.{ResponseBuilder, insert_type, build_error, build_normal}
use smc_server_client.Client.Handler.{
  ClientRh, reading, print_response_error, process_response_error, check_response_type,
  read_response, check_response,
}

-- Reading a field that is in front leaves the analyzer behind it.
pub extract_string-le_bytes :
    (a : Analyzer) (v : IsValid a) (width : ℕ) (buffer rest : Bytes)
    → length buffer < int_range width
    → unread a ≡ le_bytes width (length buffer) ++ (buffer ++ rest)
    → extract_string width a ≡ (some buffer, advance (width + length buffer) a)
unfolding extract_string
extract_string-le_bytes a v width buffer rest h e =
    bind-some (extract_buffer width) pure (extract_buffer-le_bytes a v width buffer rest h e)

pub build_error-bytes :
    (id : ResponseError) (msg : Bytes) (r : ResponseBuilder)
    → length msg < 2 ^ 16
    → (build_error id msg r).bytes
      ≡ le_bytes 1 255 ++ (le_bytes 1 (error_code id) ++ (le_bytes 2 (length msg) ++ msg))
unfolding build_error insert_type insert_string type_code
build_error-bytes id msg r h =
    insert_buffer-fits 2 msg _ h
    ∙ ap (λ t. t ++ (le_bytes 2 (length msg) ++ msg))
        (insert_int-le_bytes 1 (error_code id) _
          ∙ ap (λ t. t ++ le_bytes 1 (error_code id)) (insert_int-le_bytes 1 255 []))
    ∙ append_assoc (le_bytes 1 255) (le_bytes 1 (error_code id)) _

pub build_normal-bytes : (r : ResponseBuilder) → (build_normal r).bytes ≡ le_bytes 1 0
unfolding build_normal insert_type type_code
build_normal-bytes r = insert_int-le_bytes 1 0 []

-- The handler after it has received an answer and read some bytes of it.
abbrev pub holding : {S : Type 0} → Transport S → ClientRh S → Bytes → ℕ → ClientRh S
holding net h answer n = record h {
  response = advance n (set_data answer h.response);
  socket = (read_buffer net h.socket).1;
}

abbrev pub keep : {A S : Type 0} → ClientRh S → Option A × Analyzer → Option A × ClientRh S
keep h (r, a) = (r, record h { response = a })

module _ {S : Type 0} {net : Transport S} {pending : S → Bytes} (up : IsStream net pending)
    (h : ClientRh S) (answer rest : Bytes) (small : length answer < 2 ^ 32)
    (e : pending h.socket ≡ frame answer ++ rest) where
  arrived : pending (read_buffer net h.socket).1 ≡ rest
  arrived = (read_buffer-pending up answer rest h.socket small e).1

  received : read_response net h ≡ (
    some tt,
    record h { response = set_data answer h.response; socket = (read_buffer net h.socket).1 },
  )
  unfolding read_response
  received = rw ((read_buffer-pending up answer rest h.socket small e).0, read_response) refl

  holds-IsValid : IsValid (set_data answer h.response)
  unfolding set_data
  holds-IsValid = record { within = omega arith; in_memory = omega arith }

  unread-answer : unread (set_data answer h.response) ≡ answer
  unfolding set_data
  unread-answer = refl

  typed :
      (value : ℕ) (content : Bytes)
      → value < 256
      → answer ≡ le_bytes 1 value ++ content
      → check_response net h ≡ check_response_type value (holding net h answer 1)
  unfolding check_response
  typed value content k shape =
      bind-some (read_response net) (λ _. reading (extract_int 1) >>= check_response_type) received
      ∙ bind-some (reading (extract_int 1)) check_response_type (
          ap {B = Option ℕ × ClientRh S}
            (λ t. (t.0, record h { response = t.1; socket = (read_buffer net h.socket).1 }))
            (extract_int-le_bytes (set_data answer h.response) holds-IsValid 1 value content k
              (unread-answer ∙ shape)))

  -- An answer that a handler of the server has begun with `buildNormal` is accepted: the client then
  -- stands at what was inserted into it.
  pub check_response-build_normal :
      (r : ResponseBuilder) (content : Bytes)
      → answer ≡ (build_normal r).bytes ++ content
      → (check_response net h ≡ (some tt, holding net h answer 1))
        × (unread (holding net h answer 1).response ≡ content)
        × (pending (holding net h answer 1).socket ≡ rest)
  unfolding check_response_type type_code set_data
  check_response-build_normal r content shape =
      let zeroed : answer ≡ le_bytes 1 0 ++ content =
        shape ∙ ap (λ t. t ++ content) (build_normal-bytes r) in
      (
        typed 0 content (omega arith) zeroed,
        unread-advance 1 (set_data answer h.response) ∙ ap (drop 1) zeroed,
        arrived,
      )

  error_read :
      (id : ResponseError) (msg : Bytes)
      → error_code id < 256
      → length msg < 2 ^ 16
      → answer ≡ le_bytes 1 255 ++ (le_bytes 1 (error_code id) ++ (le_bytes 2 (length msg) ++ msg))
      → process_response_error (holding net h answer 1) ≡ (
        some tt,
        record (holding net h answer (4 + length msg)) {
          response = clear_error (advance (4 + length msg) (set_data answer h.response));
          printed = some (error_of_code (error_code id), msg);
        },
      )
  unfolding process_response_error print_response_error
  error_read id msg k l shape =
      let a : Analyzer = set_data answer h.response in
      let code = le_bytes 1 (error_code id) in
      let tail = le_bytes 2 (length msg) ++ msg in
      let size : length answer ≡ 4 + length msg =
        omega (arith, ap length shape, length-append (le_bytes 2 (length msg)) msg) in
      let here = unread-answer ∙ shape in
      let long : length (unread a) ≡ 4 + length msg = ap length unread-answer ∙ size in
      let valid = advance-IsValid 1 a holds-IsValid (omega arith) in
      let at_code : unread (advance 1 a) ≡ code ++ tail = unread-advance 1 a ∙ ap (drop 1) here in
      let valid' = advance-IsValid 1 (advance 1 a) valid (omega (arith, ap length at_code)) in
      let at_tail : unread (advance 1 (advance 1 a)) ≡ le_bytes 2 (length msg) ++ (msg ++ []) =
        unread-advance 1 (advance 1 a)
        ∙ ap (drop 1) at_code
        ∙ ap (λ t. le_bytes 2 (length msg) ++ t) (sym (append-nil msg)) in
      let held : ClientRh S = holding net h answer 1 in
      bind-some (reading (extract_int 1))
        (λ n. reading (extract_string 2) >>= print_response_error (error_of_code n))
        (ap (keep {A = ℕ} held)
          (extract_int-le_bytes (advance 1 a) valid 1 (error_code id) tail k at_code))
      ∙ bind-some (reading (extract_string 2))
          (print_response_error (error_of_code (error_code id)))
          (ap (keep {A = Bytes} held)
            (extract_string-le_bytes (advance 1 (advance 1 a)) valid' 2 msg [] l at_tail))
      ∙ ap {B = Option Unit × ClientRh S}
          (λ c. (
            some tt,
            record (holding net h answer 1) {
              response = clear_error (record a { cursor = c });
              printed = some (error_of_code (error_code id), msg);
            },
          ))
          {x = a.cursor + 1 + 1 + (2 + length msg)} {y = a.cursor + (4 + length msg)} (omega arith)

-- An error that the server answers is the error that the client shows, with the same message, and the
-- request fails: for every error whose code has one byte and every message below 2 ^ 16 bytes.
pub check_response-build_error :
    {S : Type 0} {net : Transport S} {pending : S → Bytes} (up : IsStream net pending)
    (h : ClientRh S) (id : ResponseError) (msg : Bytes) (r : ResponseBuilder) (rest : Bytes)
    → error_code id < 256
    → error_of_code (error_code id) ≡ id
    → length msg < 2 ^ 16
    → pending h.socket ≡ frame (build_error id msg r).bytes ++ rest
    → ((check_response net h).0 ≡ none)
      × ((check_response net h).1.printed ≡ some (id, msg))
      × (pending (check_response net h).1.socket ≡ rest)
unfolding check_response_type type_code
check_response-build_error {net = net} {pending = pending} up h id msg r rest k known l e =
    let shape = build_error-bytes id msg r l in
    let answer = (build_error id msg r).bytes in
    let small : length answer < 2 ^ 32 =
      omega (arith, ap length shape, length-append (le_bytes 2 (length msg)) msg) in
    let refused = typed up h answer rest small e 255 _ (omega arith) shape in
    let read = error_read up h answer rest small e id msg k l shape in
    (
      ap (λ t. t.0) refused,
      ap (λ t. t.1.printed) refused
          ∙ ap (λ t. t.1.printed) read
          ∙ ap {B = Option (ResponseError × Bytes)} (λ t. some (t, msg)) known,
      ap (λ t. pending t.1.socket) refused
          ∙ ap (λ t. pending t.1.socket) read
          ∙ arrived up h answer rest small e,
    )
