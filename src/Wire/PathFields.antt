-- ===== src/Wire/PathFields.antt =====
-- `extractPath` and `insertPath` of Shared/src/network/array_editor.cpp. A `path_t` has two bytes.
use smc_server_client.Common.{Bytes, ◌>>=◌, pure}
use smc_server_client.Wire.{Extract, extract_string, insert_string}
use smc_server_client.Paths.{FilePath, path_of, generic_string}

unfoldable pub extract_path : Extract FilePath
extract_path = do path_str ← extract_string 2; pure (path_of path_str)

unfoldable pub insert_path : FilePath → Bytes → Bytes
insert_path path bytes = insert_string 2 (generic_string path) bytes
