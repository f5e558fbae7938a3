-- ===== src/Identity/Tests.antt =====
-- A small state directory, and what the theorems on internal/identity say of it.
use backuply.Base.{◌≡◌, ◌≤◌, ◌↔◌, refl, true, Option, none, some, [], ◌∷◌, ◌++◌, text_eq}
use backuply.Base.Dict
use backuply.Base.Dict.{Dict}
use backuply.Base.Result.{ok}
use backuply.Base.Action.{◌>>=◌}
use backuply.Text.{Text, codes}
use backuply.Identity.Certificate.{
  Certificate, Library, ed25519, is_ed25519, fingerprint, validate_certificate,
}
use backuply.Identity.Directory.{
  File, Directory, step, step_with, or_missing, lstat, put, add, create, remove, cert_name,
  key_name,
}
use backuply.Identity.Pair.{Pair, Identity, or_error, the_certificate, examine}
use backuply.Identity.Load.{KeyLoader, or_incomplete, check_file, load}
use backuply.Identity.Load.Exact.{quiet, IsIdentity, load_iff}
use backuply.Identity.Create.{publish, write_exclusive, is_missing, make, load_or_create}
use backuply.Identity.Create.Kept.{load_or_create-keeps}
use backuply.Identity.Create.Once.{load_or_create-load_or_create}

abbrev cert : Certificate
cert = record {
  raw = codes "der";
  algorithm = ed25519;
  not_before = 10;
  not_after = 20;
  key_usage = 1;
}

abbrev library : Library
library = record {
  check_signature = λ c. true;
  parse_certificate = λ der. some cert;
  hash_bytes = λ b. codes "id of " ++ b;
}

abbrev device : Text
device = codes "id of der"

abbrev pair : Pair
pair = record { chain = codes "der" ∷ []; key = ed25519 }

abbrev load_pair : KeyLoader
load_pair c k = some pair

abbrev identity : Identity
identity = record { pair = pair; leaf = cert; id = device }

abbrev key : File
key = record { is_regular = true; mode = 0o600; bytes = codes "key" }

abbrev files : Dict Text File
files =
    (key_name, key)
    ∷ ((cert_name, record { is_regular = true; mode = 0o644; bytes = codes "cert" }) ∷ [])

-- The key was published, and the third call fails.
abbrev interrupted : Directory
interrupted = record { files = (key_name, key) ∷ []; faults = none ∷ none ∷ some 5 ∷ [] }

key_there : Dict.lookup key_name interrupted.files ≡ some key
unfolding Dict.lookup text_eq
key_there = refl

abbrev generated : Option (Text × Text)
generated = some (codes "key", codes "cert")

creates :
    (load_or_create library load_pair 15 (codes "1") (codes "2") generated (quiet [])).0
    ≡ ok identity
unfolding load_or_create make write_exclusive publish create add put remove lstat or_missing
    is_missing load check_file or_incomplete or_error the_certificate examine validate_certificate
    is_ed25519 fingerprint step step_with text_eq Dict.lookup Dict.insert Dict.erase ◌>>=◌
creates = refl

load_iff_example :
    ((load library load_pair 15 (quiet files)).0 ≡ ok identity)
    ↔ IsIdentity library load_pair 15 files identity
load_iff_example = load_iff library load_pair 15 files identity

load_or_create-keeps_example :
    Dict.lookup key_name
      (load_or_create library load_pair 15 (codes "1") (codes "2") generated interrupted).1.files
    ≡ some key
load_or_create-keeps_example =
    load_or_create-keeps library load_pair 15 (codes "1") (codes "2") generated interrupted key_name
      key key_there

load_or_create-load_or_create_example :
    ((load_or_create library load_pair 18 (codes "3") (codes "4") none (
        quiet
          (load_or_create library load_pair 15
            (codes "1")
            (codes "2")
            generated
            (quiet [])).1.files)).0
      ≡ ok identity)
    ↔ ((10 ≤ 18) × (18 ≤ 20))
load_or_create-load_or_create_example =
    load_or_create-load_or_create library load_pair 15 18 (codes "1") (codes "2") (codes "3")
      (codes "4") generated none (quiet []) identity creates
