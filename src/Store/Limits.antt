-- ===== src/Store/Limits.antt =====
-- The constants of internal/store/store.go.
use backuply.Base.{ℕ, ◌*◌, ◌^◌}
use backuply.Text.{Text, codes}

abbrev pub max_file_size : ℕ
max_file_size = 8 * 2 ^ 30

abbrev pub max_entries : ℕ
max_entries = 100000

abbrev pub max_manifest_bytes : ℕ
max_manifest_bytes = 64 * 2 ^ 20

abbrev pub marker_name : Text
marker_name = codes ".backuply-folder"

abbrev pub temp_prefix : Text
temp_prefix = codes ".backuply-tmp-"
