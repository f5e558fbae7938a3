-- ===== src/Config/Error.antt =====
-- The errors of internal/config, one constructor for each message.
use backuply.Base.{ℕ}
use backuply.Base.Result.{Result}

pub data Error : Type 0 where
  -- Parse
  line_too_long malformed_section duplicate_section unknown_section expected_setting : Error
  duplicate_key invalid_quoted invalid_interval unknown_key : Error
  -- Validate
  bad_listen too_many short_interval bad_peer_name bad_peer_address bad_device_id : Error
  same_device_id bad_folder_id unknown_peer duplicate_peer bad_source path_not_absolute : Error
  paths_overlap : Error
  -- the operating system
  io_error : ℕ → Error

abbrev pub Check : Type 0
Check = Result Error (Unit {0})
