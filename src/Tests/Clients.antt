-- ===== src/Tests/Clients.antt =====
-- What the client makes of the answers of the server, over a pipe.
use smc_server_client.Common.{
  ℕ, ◌+◌, List, Fallible, Yields, if◌then◌else◌, text_eq, ◌<◌, ◌^◌, true, none, some, [], ◌∷◌, ◌++◌,
  Bytes, codes, ◌>>◌, ◌≡◌, refl, arith,
}
use smc_server_client.Wire.{insert_int, insert_loop}
use smc_server_client.Network.Stream.{pipe, pipe-IsStream}
use smc_server_client.Network.Delivery.{frame}
use smc_server_client.Protocol.Request.{get_version, login, logout}
use smc_server_client.Protocol.Response.{io_open_file_error, error_code, error_of_code, type_code}
use smc_server_client.Protocol.Roles.{admin, role_code, role_of_code}
use smc_server_client.Server.Reply.{new_response, build_error, build_normal, insert_type}
use smc_server_client.Version.{IsVersion, version}
use smc_server_client.Server.Session.{server_version, handle_new_request, check_client_version}
use smc_server_client.Client.Handler.{ClientRh, new_request, send_request, check_response}
use smc_server_client.Client.Requests.{insert_user_infos, extract_user_role}
use smc_server_client.Client.Answers.{check_response-build_error}
use smc_server_client.Client.Login.{fresh, login-end_to_end}
use smc_server_client.Client.Connection.{
  VersionsMessage, new_client, client_version, send_version, read_versions,
}
use smc_server_client.Client.Connection.Exchange.{IsRight, exchange_versions}
use smc_server_client.Client.Files.{add_content_of}
use smc_server_client.Client.Files.Recursive.{
  Entries, nil, leaf, folder, infos, files_below, IsListed, add_content_of-files,
}
use smc_server_client.Protocol.Files.{FileInfo}
use smc_server_client.Paths.{
  FilePath, name_path, path_of, path_eq, names_eq, ◌/path◌, is_absolute, append_names,
  root_name_size, split_names, skip_separators,
}
use smc_server_client.Tests.Sessions.{
  bob, stranger, quiet, no_command, no_io, login_open, bob_found,
}

-- An answer with one byte behind its type, and a byte of a later frame.
abbrev answer : Bytes
answer = 0 ∷ 7 ∷ []

abbrev told : ClientRh Bytes
told = new_request get_version (frame answer ++ (9 ∷ []))

normal_type : answer ≡ (build_normal new_response).bytes ++ (7 ∷ [])
unfolding build_normal insert_type insert_int insert_loop type_code
normal_type = refl

abbrev refused : ClientRh Bytes
refused =
    new_request logout
      (frame (build_error io_open_file_error (codes "no such file") new_response).bytes ++ [])

code_lt : error_code io_open_file_error < 256
unfolding error_code
code_lt = omega arith

code_known : error_of_code (error_code io_open_file_error) ≡ io_open_file_error
unfolding error_code error_of_code
code_known = refl

check_response-build_error_example :
    ((check_response pipe refused).0 ≡ none)
    × ((check_response pipe refused).1.printed ≡ some (io_open_file_error, codes "no such file"))
    × ((check_response pipe refused).1.socket ≡ [])
check_response-build_error_example =
    check_response-build_error pipe-IsStream refused io_open_file_error (codes "no such file")
      new_response [] code_lt code_known (omega arith) refl

role_lt : role_code admin < 2 ^ 8
unfolding role_code
role_lt = omega arith

role_known : role_of_code (role_code admin) ≡ admin
unfolding role_code role_of_code
role_known = refl

login-end_to_end_example :
    let asked =
      (insert_user_infos (codes "bob") (codes "pw") >> send_request pipe) (new_request login []) in
    let served =
      handle_new_request pipe no_command no_io (record quiet { socket = asked.1.socket }) in
    (asked.0 ≡ some tt)
    × (served.client ≡ record stranger { user = fresh bob; is_logged = true })
    × (((check_response pipe >> extract_user_role) (record asked.1 { socket = served.socket })).0
        ≡ some admin)
login-end_to_end_example =
    login-end_to_end pipe-IsStream no_command no_io quiet (codes "bob") bob [] (omega arith)
      (omega arith) refl login_open bob_found refl role_lt role_known

early-IsVersion : IsVersion (version 0 8 0)
early-IsVersion = record { major_lt = omega arith; minor_lt = omega arith; patch_lt = omega arith }

late-IsVersion : IsVersion (version 1 9 0)
late-IsVersion = record { major_lt = omega arith; minor_lt = omega arith; patch_lt = omega arith }

exchange_versions_example :
    let (sent, asked) = send_version pipe (new_client []) in
    let served =
      check_client_version pipe
        (version 0 8 0)
        (version 1 9 0)
        (record quiet { socket = asked.socket }) in
    let (read, informed) = read_versions pipe (record asked { socket = served.socket }) in
    (sent ≡ some tt)
    × (served.client ≡ record stranger { version = client_version })
    × (read ≡ some tt)
    × ((message : VersionsMessage) × IsRight (version 0 8 0) (version 1 9 0) message
        × (informed ≡ record (new_client []) {
          server_ver = server_version;
          min_client_version = version 0 8 0;
          max_client_version = version 1 9 0;
          socket = informed.socket;
          shown = some message;
        }))
    × (informed.socket ≡ [])
exchange_versions_example =
    exchange_versions pipe-IsStream (new_client []) quiet (version 0 8 0) (version 1 9 0)
      early-IsVersion late-IsVersion refl

-- A directory `d` with a file, in a directory with another file behind it.
abbrev inner : Entries
inner = leaf (codes "a") 1 nil

abbrev outer : Entries
outer = folder (codes "d") inner (leaf (codes "b") 2 nil)

abbrev top : FilePath
top = name_path (codes "top")

abbrev list_outer : FilePath → Fallible ℕ (List FileInfo)
list_outer path asked =
    if path_eq path top then (some (infos outer), asked + 1) else (some (infos inner), asked + 1)

top_listed : Yields (list_outer top) (some (infos outer))
unfolding path_eq names_eq text_eq
top_listed asked = refl

all-IsListed : IsListed list_outer top outer
unfolding path_eq names_eq text_eq ◌/path◌ is_absolute append_names path_of root_name_size
    split_names skip_separators
all-IsListed = (λ asked. refl, tt, tt)

add_content_of-files_example :
    Yields (add_content_of list_outer 3 top) (some (files_below top outer))
add_content_of-files_example =
    add_content_of-files list_outer 3 outer top (omega arith) top_listed all-IsListed
