-- ===== src/Server/IoContent/Unchecked.antt =====
-- The handlers of the content of files do not ask what the client may access.
use smc_server_client.Common.{
  ℕ, true, some, Bytes, Fallible, ◌>>=◌, ◌>>◌, bind-some, Commutes, bind-Commutes, Bool-cases, inl,
  inr, ◌≡◌, refl, ap, sym, ◌∙◌, length,
}
use smc_server_client.Wire.{Analyzer, extract_int, insert_int}
use smc_server_client.Wire.PathFields.{extract_path}
use smc_server_client.Paths.{FilePath, is_absolute, ◌/path◌}
use smc_server_client.Network.{Transport, send_buffer}
use smc_server_client.Transfer.{Sizes, calc_buffer_count}
use smc_server_client.Protocol.Roles.{Role, user, admin, developer, no_role, other_role}
use smc_server_client.Server.Handler.{Client, Rh, send_response}
use smc_server_client.Server.Requests.{extracting}
use smc_server_client.Server.Disk.{Disk}
use smc_server_client.Server.Sfs.{Directories, scope, absolute_from_user_scope}
use smc_server_client.Server.Io.{Outside, on_wire, on_disk, inserting, extract_abs_path}
use smc_server_client.Server.IoContent.{
  extract_sizes, require_buffer_size, open_input, open_output, transmit_content, send_file,
  get_file_content, run_get_file_content, receive_content, set_file_content, run_set_file_content,
}

-- A handler with another client.
abbrev pub as_client : {S : Type 0} → Client → Rh S → Rh S
as_client client h = record h { session = record h.session { client = client } }

scope-absolute :
    (dirs : Directories) (role : Role) (path : FilePath)
    → is_absolute path ≡ true
    → scope dirs role path ≡ path
unfolding ◌/path◌
scope-absolute dirs user path absolute = rw absolute refl
scope-absolute dirs admin path absolute = rw absolute refl
scope-absolute dirs developer path absolute = refl
scope-absolute dirs no_role path absolute = refl
scope-absolute dirs (other_role n) path absolute = refl

module _ {W D : Type 0} (net : Transport W) (os : Disk D) (dirs : Directories) (max_buffer_size : ℕ)
    (client : Client) where
  transmit_content-Commutes :
      (buffer_size : ℕ) (content : Bytes) (h : Rh (Outside W D))
      → Commutes
          (as_client client)
          (transmit_content net os dirs max_buffer_size buffer_size content)
          h
  unfolding transmit_content send_response
  transmit_content-Commutes buffer_size content h = elim (Bool-cases h.response_sent) [
    | inl sent ↦ rw sent refl
    | inr unsent ↦
        elim (Bool-cases (send_buffer (on_wire net) h.response.bytes h.session.socket).0) [
          | inl all ↦ rw (unsent, all) refl
          | inr part ↦ rw (unsent, part) refl
        ]
  ]

  receive_content-Commutes :
      (path : FilePath) (sizes : Sizes) (h : Rh (Outside W D))
      → Commutes (as_client client) (receive_content net os dirs max_buffer_size path sizes) h
  unfolding receive_content send_response
  receive_content-Commutes path sizes h = elim (Bool-cases h.response_sent) [
    | inl sent ↦ rw sent refl
    | inr unsent ↦
        elim (Bool-cases (send_buffer (on_wire net) h.response.bytes h.session.socket).0) [
          | inl all ↦ rw (unsent, all) refl
          | inr part ↦ rw (unsent, part) refl
        ]
  ]

  send_file-Commutes :
      (buffer_size : ℕ) (content : Bytes) (h : Rh (Outside W D))
      → Commutes (as_client client) (send_file net os dirs max_buffer_size buffer_size content) h
  unfolding send_file
  send_file-Commutes buffer_size content h =
      let send = transmit_content net os dirs max_buffer_size buffer_size content in
      let insert_count : Fallible (Rh (Outside W D)) Unit =
        inserting (insert_int 8 (calc_buffer_count (length content) buffer_size)) in
      bind-Commutes (as_client client) (inserting (insert_int 8 (length content)))
        (λ _. insert_count >> send) h refl
        (λ _ g.
          bind-Commutes (as_client client) insert_count (λ _. send) g refl
            (λ _. transmit_content-Commutes buffer_size content))

  get_file_content-Commutes :
      (path : FilePath) (buffer_size : ℕ) (h : Rh (Outside W D))
      → Commutes
          (as_client client)
          (get_file_content net os dirs max_buffer_size path buffer_size)
          h
  unfolding get_file_content
  get_file_content-Commutes path buffer_size h =
      let send = send_file net os dirs max_buffer_size buffer_size in
      bind-Commutes (as_client client) (on_disk (require_buffer_size max_buffer_size buffer_size))
        (λ _. on_disk (open_input os path) >>= send) h refl
        (λ _ g.
          bind-Commutes (as_client client) (on_disk (open_input os path)) send g refl
            (send_file-Commutes buffer_size))

  set_file_content-Commutes :
      (path : FilePath) (sizes : Sizes) (h : Rh (Outside W D))
      → Commutes (as_client client) (set_file_content net os dirs max_buffer_size path sizes) h
  unfolding set_file_content
  set_file_content-Commutes path sizes h =
      let receive = receive_content net os dirs max_buffer_size path sizes in
      bind-Commutes (as_client client)
        (on_disk (require_buffer_size max_buffer_size sizes.buffer_size))
        (λ _. on_disk (open_output os path) >> receive) h refl
        (λ _ g.
          bind-Commutes (as_client client) (on_disk (open_output os path)) (λ _. receive) g refl
            (λ _. receive_content-Commutes path sizes))

  module _ (h : Rh (Outside W D)) (path : FilePath) (request : Analyzer)
      (reads : extract_path h.request ≡ (some path, request))
      (absolute : is_absolute path ≡ true) where
    extract_abs_path-absolute :
        (c : Client)
        → extract_abs_path {W = W} os dirs (as_client c h)
          ≡ (some path, as_client c (record h { request = request }))
    unfolding extract_abs_path absolute_from_user_scope
    extract_abs_path-absolute c = rw reads (
        ap (λ (p : FilePath). (some p, as_client c (record h { request = request })))
          (scope-absolute dirs c.user.role path absolute))

    -- A download and an upload whose path is absolute do the same for every client, whatever its role and
    -- what it may access: the same answer, the same bytes on the wire and the same changes of the disk.
    pub run_file_content-any_client :
        Commutes (as_client client) (run_get_file_content net os dirs max_buffer_size) h
        × Commutes (as_client client) (run_set_file_content net os dirs max_buffer_size) h
    unfolding run_get_file_content run_set_file_content
    run_file_content-any_client =
        let g = record h { request = request } in
        let get = get_file_content net os dirs max_buffer_size path in
        let set = set_file_content net os dirs max_buffer_size path in
        let download : FilePath → Fallible (Rh (Outside W D)) Unit =
          λ p. extracting (extract_int 4) >>= get_file_content net os dirs max_buffer_size p in
        let upload : FilePath → Fallible (Rh (Outside W D)) Unit =
          λ p. extracting extract_sizes >>= set_file_content net os dirs max_buffer_size p in
        let behind : (k : FilePath → Fallible (Rh (Outside W D)) Unit) (c : Client)
            → (extract_abs_path os dirs >>= k) (as_client c h) ≡ k path (as_client c g) =
          λ k c. bind-some (extract_abs_path os dirs) k (extract_abs_path-absolute c) in
        (
          behind download client
              ∙ bind-Commutes (as_client client) (extracting (extract_int 4)) get g refl
                  (get_file_content-Commutes path)
              ∙ ap (λ t. (t.0, as_client client t.1)) (sym (behind download h.session.client)),
          behind upload client
              ∙ bind-Commutes (as_client client) (extracting extract_sizes) set g refl
                  (set_file_content-Commutes path)
              ∙ ap (λ t. (t.0, as_client client t.1)) (sym (behind upload h.session.client)),
        )
