-- ===== src/Server/FileServer.antt =====
-- Server/include/network/request/factory.hpp: the handlers of files in the session. The state of a
-- session's socket is then what is outside the program: the connection and the disk.
pub mod Unlogged
use smc_server_client.Common.{ℕ, Bytes, Fallible}
use smc_server_client.Network.{Transport}
use smc_server_client.Protocol.Request.{
  RequestId, io_file_exists, io_get_dir_content, io_get_file_type, io_get_file_size,
  io_get_file_content, io_get_real_path, io_set_file_content, io_set_file_name, io_create_file,
  io_create_directory, io_delete_file, io_move_file, io_copy_file, other_request,
}
use smc_server_client.Server.Handler.{Session, Rh}
use smc_server_client.Server.Requests.{Popen}
use smc_server_client.Server.Session.{process_received_request, handle_new_request}
use smc_server_client.Server.Disk.{Disk}
use smc_server_client.Server.Sfs.{Directories}
use smc_server_client.Server.Sfs.Changes.{move, copy}
use smc_server_client.Server.Io.{
  Outside, on_wire, run_create_directory, run_create_file, run_delete_file, run_file_exists,
  run_get_file_type, run_get_file_size, run_get_real_path, run_get_dir_content, run_set_file_name,
  run_copy_file, run_move_file,
}
use smc_server_client.Server.IoContent.{run_get_file_content, run_set_file_content}

abbrev pub left : {S : Type 0} → Fallible (Rh S) Unit → Rh S → Rh S
left m h = (m h).1

module _ {W D : Type 0} (net : Transport W) (os : Disk D) (dirs : Directories)
    (max_buffer_size : ℕ) where
  -- The `_run` of the handlers of files.
  unfoldable pub run_io : RequestId → Rh (Outside W D) → Rh (Outside W D)
  run_io io_file_exists h = left (run_file_exists os dirs) h
  run_io io_get_dir_content h = left (run_get_dir_content os dirs) h
  run_io io_get_file_type h = left (run_get_file_type os dirs) h
  run_io io_get_file_size h = left (run_get_file_size os dirs) h
  run_io io_get_file_content h = left (run_get_file_content net os dirs max_buffer_size) h
  run_io io_get_real_path h = left (run_get_real_path os dirs) h
  run_io io_set_file_content h = left (run_set_file_content net os dirs max_buffer_size) h
  run_io io_set_file_name h = left (run_set_file_name os dirs) h
  run_io io_create_file h = left (run_create_file os dirs) h
  run_io io_create_directory h = left (run_create_directory os dirs) h
  run_io io_delete_file h = left (run_delete_file os dirs) h
  run_io io_move_file h = left (run_move_file os dirs (on_wire net)) h
  run_io io_copy_file h = left (run_copy_file os dirs (on_wire net)) h
  run_io request h = h

  unfoldable pub process_request :
      Popen (Outside W D) → RequestId → Bytes → Session (Outside W D) → Session (Outside W D)
  process_request popen request request_content session =
      process_received_request (on_wire net) popen run_io request request_content session
