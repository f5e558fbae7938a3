-- ===== src/Store/Error.antt =====
-- The errors that internal/store returns, one constructor for each message or sentinel.
use backuply.Base.{ℕ}
use backuply.Base.Result.{Result}

pub data Error : Type 0 where
  -- files.go
  invalid_path reserved_path bad_permissions bad_directory bad_file bad_block_count : Error
  bad_block_layout bad_marker marker_mismatch unsupported_object non_directory_parent : Error
  unsupported_file changed_while_reading invalid_folder_id : Error
  -- store.go
  unsupported_version limits_exceeded constraint_failed bad_json no_rows : Error
  -- scan.go
  stale_request not_in_manifest source_changed source_block_changed unsupported_type too_deep :
      Error
  -- apply.go
  local_change blocks_mismatch no_fetcher corrupt_block checksum_mismatch : Error
  -- the operating system and the context
  not_exist already_exists : Error
  io_error : ℕ → Error

-- A function that returns only an error.
abbrev pub Check : Type 0
Check = Result Error (Unit {0})
