-- ===== src/Store/Apply/Temp.antt =====
-- The temporary file never stands at the destination: its name is reserved, and no element of an
-- accepted path is.
use backuply.Base.{◌≡◌, ◌≢◌, ◌<◌, refl, sym, arith, true, [], ◌∷◌, ◌++◌, length, All}
use mathlib.Core.Path.{subst}
use backuply.Text.{Text, has_prefix}
use backuply.Store.Limits.{temp_prefix}
use backuply.Store.Path.Safe.{IsSafePart}
use backuply.Store.Disk.{FilePath}
use backuply.Store.Folder.{parent}
use backuply.Store.Apply.{temp_path}

has_prefix-append : (p s : Text) → has_prefix (p ++ s) p ≡ true
unfolding has_prefix
has_prefix-append [] [] = refl
has_prefix-append [] (c ∷ s) = refl
has_prefix-append (c ∷ p) s = ground (arith, has_prefix-append p s)

last_is_safe :
    (above : FilePath) (name : Text) → All IsSafePart (above ++ name ∷ []) → IsSafePart name
last_is_safe [] name h = h.0
last_is_safe (part ∷ above) name h = last_is_safe above name h.1

pub temp_path-ne :
    (nonce : Text) (parts : FilePath) → All IsSafePart parts → temp_path nonce parts ≢ parts
temp_path-ne nonce parts safe e =
    let s =
      last_is_safe (parent parts) (temp_prefix ++ nonce) (subst (All IsSafePart) (sym e) safe) in
    let p = has_prefix-append temp_prefix nonce in cc (s.not_temp, p)

append-ne_nil : (above : FilePath) (name : Text) → above ++ name ∷ [] ≢ []
append-ne_nil [] name e = ground arith
append-ne_nil (part ∷ above) name e = ground arith

pub temp_path-ne_nil : (nonce : Text) (parts : FilePath) → temp_path nonce parts ≢ []
temp_path-ne_nil nonce parts = append-ne_nil (parent parts) (temp_prefix ++ nonce)

-- The parent has fewer elements.
pub length-parent : (parts : FilePath) → parts ≢ [] → length (parent parts) < length parts
unfolding parent
length-parent [] h = absurd (h refl)
length-parent (part ∷ []) h = omega arith
length-parent (part ∷ next ∷ parts) h =
    let shorter = length-parent (next ∷ parts) (λ e. ground arith) in omega (arith, shorter)
