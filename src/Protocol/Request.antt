-- ===== src/Protocol/Request.antt =====
-- Shared/include/Shared/network/request/id.hpp and Shared/src/network/request/id.cpp. An enumeration
-- with a fixed underlying type holds any byte: those that it does not name are `other_request`.
use smc_server_client.Common.{ℕ, Bytes, codes, ◌==◌, if◌then◌else◌}

pub data RequestId : Type 0 where
  get_version quit login logout run_syscmd io_file_exists io_get_dir_content : RequestId
  io_get_file_type io_get_file_size io_get_file_content io_get_real_path io_set_file_content :
      RequestId
  io_set_file_name io_create_file io_create_directory io_delete_file io_move_file : RequestId
  io_copy_file server_restart : RequestId
  other_request : ℕ → RequestId

unfoldable pub request_code : RequestId → ℕ
request_code get_version = 0
request_code quit = 32
request_code login = 33
request_code logout = 34
request_code run_syscmd = 35
request_code io_file_exists = 64
request_code io_get_dir_content = 65
request_code io_get_file_type = 66
request_code io_get_file_size = 67
request_code io_get_file_content = 68
request_code io_get_real_path = 69
request_code io_set_file_content = 96
request_code io_set_file_name = 97
request_code io_create_file = 128
request_code io_create_directory = 129
request_code io_delete_file = 130
request_code io_move_file = 131
request_code io_copy_file = 132
request_code server_restart = 160
request_code (other_request n) = n

unfoldable pub request_of_code : ℕ → RequestId
request_of_code n =
    if n == 0
    then get_version
    else if n == 32
    then quit
    else if n == 33
    then login
    else if n == 34
    then logout
    else if n == 35
    then run_syscmd
    else if n == 64
    then io_file_exists
    else if n == 65
    then io_get_dir_content
    else if n == 66
    then io_get_file_type
    else if n == 67
    then io_get_file_size
    else if n == 68
    then io_get_file_content
    else if n == 69
    then io_get_real_path
    else if n == 96
    then io_set_file_content
    else if n == 97
    then io_set_file_name
    else if n == 128
    then io_create_file
    else if n == 129
    then io_create_directory
    else if n == 130
    then io_delete_file
    else if n == 131
    then io_move_file
    else if n == 132
    then io_copy_file
    else if n == 160
    then server_restart
    else other_request n

unfoldable pub request_name : RequestId → Bytes
request_name get_version = codes "GET_VERSION"
request_name quit = codes "QUIT"
request_name login = codes "LOGIN"
request_name logout = codes "LOGOUT"
request_name run_syscmd = codes "RUN_SYSCMD"
request_name io_file_exists = codes "IO_FILE_EXISTS"
request_name io_get_dir_content = codes "IO_GET_DIR_CONTENT"
request_name io_get_file_type = codes "IO_GET_FILE_TYPE"
request_name io_get_file_size = codes "IO_GET_FILE_SIZE"
request_name io_get_file_content = codes "IO_GET_FILE_CONTENT"
request_name io_get_real_path = codes "IO_GET_REAL_PATH"
request_name io_set_file_content = codes "IO_SET_FILE_CONTENT"
request_name io_set_file_name = codes "IO_SET_FILE_NAME"
request_name io_create_file = codes "IO_CREATE_FILE"
request_name io_create_directory = codes "IO_CREATE_DIRECTORY"
request_name io_delete_file = codes "IO_DELETE_FILE"
request_name io_move_file = codes "IO_MOVE_FILE"
request_name io_copy_file = codes "IO_COPY_FILE"
request_name server_restart = codes "SERVER_RESTART"
request_name (other_request n) = codes "UNKNOWN"
