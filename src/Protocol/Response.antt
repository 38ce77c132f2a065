-- ===== src/Protocol/Response.antt =====
-- Shared/include/Shared/network/response/error.hpp and type.hpp, Shared/src/network/response/error.cpp.
use smc_server_client.Common.{ℕ, Bytes, codes, ◌==◌, if◌then◌else◌}

pub data ResponseError : Type 0 where
  version_too_old invalid_request_data unknown_request not_logged invalid_permissions :
      ResponseError
  invalid_password user_not_exists unknown_restart_mode open_pipe_error io_invalid_file_name :
      ResponseError
  io_invalid_buffer_size io_open_file_error io_rename_error io_delete_error io_move_error :
      ResponseError
  io_copy_error io_create_dir_error io_create_file_error io_file_already_exists : ResponseError
  io_file_not_exists io_path_not_directory : ResponseError
  other_error : ℕ → ResponseError

unfoldable pub error_code : ResponseError → ℕ
error_code version_too_old = 0
error_code invalid_request_data = 1
error_code unknown_request = 2
error_code not_logged = 16
error_code invalid_permissions = 32
error_code invalid_password = 33
error_code user_not_exists = 34
error_code unknown_restart_mode = 48
error_code open_pipe_error = 49
error_code io_invalid_file_name = 64
error_code io_invalid_buffer_size = 65
error_code io_open_file_error = 66
error_code io_rename_error = 67
error_code io_delete_error = 68
error_code io_move_error = 69
error_code io_copy_error = 70
error_code io_create_dir_error = 71
error_code io_create_file_error = 72
error_code io_file_already_exists = 73
error_code io_file_not_exists = 74
error_code io_path_not_directory = 75
error_code (other_error n) = n

unfoldable pub error_of_code : ℕ → ResponseError
error_of_code n =
    if n == 0
    then version_too_old
    else if n == 1
    then invalid_request_data
    else if n == 2
    then unknown_request
    else if n == 16
    then not_logged
    else if n == 32
    then invalid_permissions
    else if n == 33
    then invalid_password
    else if n == 34
    then user_not_exists
    else if n == 48
    then unknown_restart_mode
    else if n == 49
    then open_pipe_error
    else if n == 64
    then io_invalid_file_name
    else if n == 65
    then io_invalid_buffer_size
    else if n == 66
    then io_open_file_error
    else if n == 67
    then io_rename_error
    else if n == 68
    then io_delete_error
    else if n == 69
    then io_move_error
    else if n == 70
    then io_copy_error
    else if n == 71
    then io_create_dir_error
    else if n == 72
    then io_create_file_error
    else if n == 73
    then io_file_already_exists
    else if n == 74
    then io_file_not_exists
    else if n == 75
    then io_path_not_directory
    else other_error n

unfoldable pub error_name : ResponseError → Bytes
error_name version_too_old = codes "VERSION_TOO_OLD"
error_name invalid_request_data = codes "INVALID_REQUEST_DATA"
error_name unknown_request = codes "UNKNOWN_REQUEST"
error_name not_logged = codes "NOT_LOGGED"
error_name invalid_permissions = codes "INVALID_PERMISSIONS"
error_name invalid_password = codes "INVALID_PASSWORD"
error_name user_not_exists = codes "USER_NOT_EXISTS"
error_name unknown_restart_mode = codes "UNKNOWN_RESTART_MODE"
error_name open_pipe_error = codes "OPEN_PIPE_ERROR"
error_name io_invalid_file_name = codes "IO_INVALID_FILE_NAME"
error_name io_invalid_buffer_size = codes "IO_INVALID_BUFFER_SIZE"
error_name io_open_file_error = codes "IO_OPEN_FILE_ERROR"
error_name io_rename_error = codes "IO_RENAME_ERROR"
error_name io_delete_error = codes "IO_DELETE_ERROR"
error_name io_move_error = codes "IO_MOVE_ERROR"
error_name io_copy_error = codes "IO_COPY_ERROR"
error_name io_create_dir_error = codes "IO_CREATE_DIR_ERROR"
error_name io_create_file_error = codes "IO_CREATE_FILE_ERROR"
error_name io_file_already_exists = codes "IO_FILE_ALREADY_EXISTS"
error_name io_file_not_exists = codes "IO_FILE_NOT_EXISTS"
error_name io_path_not_directory = codes "IO_PATH_NOT_DIRECTORY"
error_name (other_error n) = codes "UNKNOWN"

pub data ResponseType : Type 0 where
  ok error : ResponseType

unfoldable pub type_code : ResponseType → ℕ
type_code ok = 0x00
type_code error = 0xFF
