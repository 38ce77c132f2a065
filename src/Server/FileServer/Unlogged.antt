-- ===== src/Server/FileServer/Unlogged.antt =====
-- What a client that is not logged in does to the disk: nothing.
use smc_server_client.Common.{
  ℕ, false, Bool, Option, none, some, [], Bytes, text_eq, Fallible, ◌>>=◌, ◌>>◌, Keeps, bind-Keeps,
  Bool-cases, Option-cases, inl, inr, ◌≡◌, refl, ap, ◌∙◌,
}
use smc_server_client.Wire.{is_error, set_data, extract_string}
use smc_server_client.Wire.PathFields.{extract_path}
use smc_server_client.Paths.{FilePath}
use smc_server_client.Network.{Transport, send_buffer}
use smc_server_client.Network.Kept.{send_buffer-kept}
use smc_server_client.Protocol.Request.{
  RequestId, quit, get_version, login, io_move_file, io_copy_file,
}
use smc_server_client.Protocol.Response.{unknown_request, invalid_permissions}
use smc_server_client.Server.Users.{get, no_user}
use smc_server_client.Server.Reply.{new_response, build_normal, build_error}
use smc_server_client.Server.Handler.{
  Client, Session, Rh, Requirements, report_invalid_request, send_if_unsent, send_response,
}
use smc_server_client.Server.Handler.Guards.{refusal, run-refused, run-accepted}
use smc_server_client.Server.Requests.{
  Popen, LoginRh, extracting, extract_credential, get_user_from_username, check_password,
  check_login, run_login, run_get_version,
}
use smc_server_client.Server.Session.{
  anyone, requirements, body, handle, new_handler, process_received_request, send_response_error,
}
use smc_server_client.Server.Session.Access.{classify, refusal-unlogged}
use smc_server_client.Server.Disk.{Disk}
use smc_server_client.Server.Sfs.{
  Directories, can_lexically_access, access_within, absolute_from_user_scope,
}
use smc_server_client.Server.Sfs.Changes.{Work, report, move, copy}
use smc_server_client.Server.Sfs.Changes.Refused.{copy_move-refused}
use smc_server_client.Server.Io.{Outside, on_wire, disk_of, work_of, on_disk, run_copy_or_move}
use smc_server_client.Server.FileServer.{run_io, process_request}

module _ {W D : Type 0} (net : Transport W) (d : D) where
  send_buffer-disk :
      (buffer : Bytes) (o : Outside W D)
      → o.disk ≡ d
      → (send_buffer (on_wire net) buffer o).1.disk ≡ d
  send_buffer-disk =
      send_buffer-kept (on_wire net) (λ (o : Outside W D). o.disk ≡ d) (λ bytes o e. e)

  send_response-disk :
      (h : Rh (Outside W D)) → disk_of h ≡ d → disk_of (send_response (on_wire net) h).1 ≡ d
  unfolding send_response
  send_response-disk h e = elim (Bool-cases h.response_sent) [
    | inl sent ↦ rw sent e
    | inr unsent ↦ rw unsent (send_buffer-disk h.response.bytes h.session.socket e)
  ]

  -- What `run` does behind the body of a handler.
  settled-disk :
      (h : Rh (Outside W D))
      → disk_of h ≡ d
      → disk_of (send_if_unsent (on_wire net) (report_invalid_request h)) ≡ d
  unfolding send_if_unsent report_invalid_request
  settled-disk h e =
      let reported = report_invalid_request h in
      let same : disk_of reported ≡ d = elim (Bool-cases (is_error h.request)) [
        | inl bad ↦ rw bad e
        | inr good ↦ rw good e
      ] in
      elim (Bool-cases reported.response_sent) [
        | inl sent ↦ rw sent same
        | inr unsent ↦
            rw unsent (send_buffer-disk reported.response.bytes reported.session.socket same)
      ]

-- A login keeps the disk.
module _ {W D : Type 0} (d : D) where
  abbrev LoginDisk : LoginRh (Outside W D) → Type 0
  LoginDisk l = disk_of l.handler ≡ d

  extract_credential-disk : Keeps LoginDisk extract_credential
  unfolding extract_credential
  extract_credential-disk l e = elim (Option-cases (extract_string 1 l.handler.request).0) [
    | inl bad ↦ rw bad e
    | inr (name, good) ↦ rw good e
  ]

  get_user_from_username-disk : (name : Bytes) → Keeps LoginDisk (get_user_from_username name)
  unfolding get_user_from_username
  get_user_from_username-disk name l e =
      elim (Bool-cases (get name l.handler.session.users).is_valid) [
        | inl known ↦ rw known e
        | inr unknown ↦ rw unknown e
      ]

  check_password-disk : (password : Bytes) → Keeps LoginDisk (check_password password)
  unfolding check_password
  check_password-disk password l e = elim (Bool-cases (text_eq password l.user.password)) [
    | inl right ↦ rw right e
    | inr wrong ↦ rw wrong e
  ]

  check_login-disk : Keeps LoginDisk check_login
  unfolding check_login
  check_login-disk =
      bind-Keeps LoginDisk extract_credential
        (λ username. extract_credential >>= λ password.
          get_user_from_username username >> check_password password)
        extract_credential-disk
        (λ username.
          bind-Keeps LoginDisk extract_credential
            (λ password. get_user_from_username username >> check_password password)
            extract_credential-disk
            (λ password.
              bind-Keeps LoginDisk (get_user_from_username username) (λ _. check_password password)
                (get_user_from_username-disk username) (λ _. check_password-disk password)))

module _ {W D : Type 0} (net : Transport W) (os : Disk D) (dirs : Directories) (client : Client)
    (d : D) (unlogged : client.is_logged ≡ false) where
  no_access : (e : D) (path : FilePath) → can_lexically_access os dirs client e path ≡ false
  unfolding can_lexically_access access_within
  no_access e path = rw unlogged refl

  abbrev HandlerDisk : Rh (Outside W D) → Type 0
  HandlerDisk h = disk_of h ≡ d

  -- A copy or a move that is refused keeps the disk, and so does what comes with it.
  run_copy_or_move-disk :
      (operation : FilePath → FilePath → Fallible (Work D) Unit)
      → ((input_path output_path : FilePath) (w : Work D)
          → operation input_path output_path w ≡ (none, report invalid_permissions [] w))
      → Keeps HandlerDisk (run_copy_or_move os dirs (on_wire net) operation)
  unfolding run_copy_or_move
  run_copy_or_move-disk operation refused h =
      let scoped = absolute_from_user_scope dirs h.session.client in
      let answer : Fallible (Rh (Outside W D)) Unit =
        λ g. (some tt, (send_response (on_wire net) g).1) in
      let work : FilePath → FilePath → Fallible (Rh (Outside W D)) Unit = λ input_path output_path.
        on_disk (operation (scoped input_path) (scoped output_path)) >> answer in
      bind-Keeps HandlerDisk (extracting extract_path)
        (λ input_path. extracting extract_path >>= λ output_path. work input_path output_path)
        (λ g e. e)
        (λ input_path.
          bind-Keeps HandlerDisk (extracting extract_path) (work input_path) (λ g e. e)
            (λ output_path.
              bind-Keeps HandlerDisk (on_disk (operation (scoped input_path) (scoped output_path)))
                (λ _. answer)
                (λ g e.
                  ap (λ t. t.1.disk) (refused (scoped input_path) (scoped output_path) (work_of g))
                  ∙ e)
                (λ _ g e. send_response-disk net d g e)))
        h

must : Option Requirements → Bool
must none = false
must (some required) = required.must_be_logged

-- The bodies that run for anyone keep the disk.
module _ {W D : Type 0} (net : Transport W) (os : Disk D) (dirs : Directories) (max_buffer_size : ℕ)
    (popen : Popen (Outside W D)) (h : Rh (Outside W D))
    (unlogged : h.session.client.is_logged ≡ false) where
  body-disk :
      (request : RequestId)
      → requirements request ≡ some anyone
      → disk_of (body (on_wire net) popen (run_io net os dirs max_buffer_size) request h)
        ≡ disk_of h
  unfolding body run_io run_login run_get_version requirements must
  body-disk get_version free = refl
  body-disk login free = check_login-disk (disk_of h) (record { handler = h; user = no_user }) refl
  body-disk io_move_file free =
      let client = h.session.client in
      run_copy_or_move-disk net os dirs client (disk_of h) unlogged (move os dirs client)
        (λ input_path output_path w.
          (copy_move-refused os dirs client input_path output_path w
            (inl (no_access net os dirs client (disk_of h) unlogged w.disk input_path))).1)
        h refl
  body-disk io_copy_file free =
      let client = h.session.client in
      run_copy_or_move-disk net os dirs client (disk_of h) unlogged (copy os dirs client)
        (λ input_path output_path w.
          (copy_move-refused os dirs client input_path output_path w
            (inl (no_access net os dirs client (disk_of h) unlogged w.disk input_path))).0)
        h refl
  body-disk _ free = let e = ap must free in cc

module _ {W D : Type 0} (net : Transport W) (os : Disk D) (dirs : Directories) (max_buffer_size : ℕ)
    (popen : Popen (Outside W D)) (request_content : Bytes) (session : Session (Outside W D))
    (unlogged : session.client.is_logged ≡ false) where
  abbrev DiskAfter : Session (Outside W D) → Type 0
  DiskAfter after = after.socket.disk ≡ session.socket.disk

  handle-disk :
      (request : RequestId) (required : Requirements)
      → (refusal required session.client ≡ none → requirements request ≡ some anyone)
      → DiskAfter (
          handle
            (on_wire net)
            popen
            (run_io net os dirs max_buffer_size)
            (some required)
            request
            request_content
            session)
  unfolding set_data is_error
  handle-disk request required free =
      let h = new_handler request_content session in
      let io = run_io net os dirs max_buffer_size in
      elim (Option-cases (refusal required session.client)) [
        | inl accepted ↦
            let begun : Rh (Outside W D) = record h { response = build_normal h.response } in
            ap disk_of
              (run-accepted (on_wire net) required (body (on_wire net) popen io request) h accepted)
            ∙ settled-disk net session.socket.disk (body (on_wire net) popen io request begun)
                (body-disk net os dirs max_buffer_size popen begun unlogged request (free accepted))
        | inr (id, refused) ↦
            ap disk_of (
              run-refused (on_wire net) required (body (on_wire net) popen io request) h refused
                refl refl)
            ∙ send_buffer-disk net session.socket.disk
                (build_error id [] (build_normal new_response)).bytes session.socket refl
      ]

  -- Whatever request a client sends that is not logged in, the disk stays as it is: its files and their
  -- contents, whatever the file system answers, and be the request a move, a copy or one that the
  -- server does not know.
  pub process_request-unlogged :
      (request : RequestId)
      → DiskAfter
          (process_request net os dirs max_buffer_size popen request request_content session)
  unfolding process_request send_response_error process_received_request
  process_request-unlogged quit = refl
  process_request-unlogged request = elim (classify request) [
    | inl unknown ↦ rw unknown (
        send_buffer-disk net session.socket.disk (build_error unknown_request [] new_response).bytes
          session.socket refl)
    | inr (inl free) ↦ rw free (handle-disk request anyone (λ _. free))
    | inr (inr (required, known, musts)) ↦ rw known (
        handle-disk request required (λ accepted.
          let refused = (refusal-unlogged required session.client musts unlogged).1 in cc))
  ]
