-- ===== src/Command/Tests.antt =====
-- A command line, and what the theorem on cmd/backuply says of it.
use backuply.Base.{
  ◌≡◌, refl, sym, ap, ◌∙◌, ◌≢◌, true, false, inl, inr, none, some, contains, Bool-cases, List, [],
  ◌∷◌, text_eq, ◌==◌, ==_iff, if◌then◌else◌,
}
use backuply.Base.Dict
use backuply.Base.Dict.{Dict}
use backuply.Base.Result.{Result, ok, err}
use backuply.Text.{Text, codes, has_prefix}
use backuply.Config.Error.{Error as ConfigError, io_error}
use backuply.Config.Library.{Library, Files, missing}
use backuply.Config.Paths.{is_absolute}
use backuply.Config.Validate.{load}
use backuply.Command.{
  Flags, Parsed, help, failed, parsed, flag_names, flag_value, was_given, initialize,
  only_state_dir, plan_of, configuration, with_flags, execute,
}
use backuply.Command.Checked.{IsFlagParser, IsChecked, execute-IsChecked}

abbrev library : Library
library = record { unquote = λ t. none; parse_duration = λ t. none }

abbrev files : Files
files = record { lstat = λ p. missing; eval_symlinks = λ p. ok p }

abbrev read : Text → Result ConfigError Text
read path = err (io_error 2)

-- Arguments that give the state directory
abbrev flags : Flags
flags = record { given = (codes "state-dir", codes "/state") ∷ []; left = 0 }

abbrev parse_flags : List Text → List Text → Parsed
parse_flags names args = if contains (codes "state-dir") names then parsed flags else failed

abbrev given_of : Parsed → Dict Text Text
given_of (parsed f) = f.given
given_of help = []
given_of failed = []

not_given :
    (name value : Text)
    → (name == codes "state-dir") ≡ false
    → Dict.lookup name flags.given ≢ some value
unfolding Dict.lookup
not_given name value a found = let k = rw a at found in cc

parsed-flags :
    (names args : List Text) (f : Flags)
    → parse_flags names args ≡ parsed f
    → (contains (codes "state-dir") names ≡ true) × (f.given ≡ flags.given)
parsed-flags names args f e = elim (Bool-cases (contains (codes "state-dir") names)) [
  | inl a ↦ (a, sym (ap given_of (rw a at e)))
  | inr a ↦ let k = rw a at e in cc
]

parse_flags-IsFlagParser : IsFlagParser parse_flags
parse_flags-IsFlagParser = record {
  defined = λ names args f name value e found.
      let (defined, same) = parsed-flags names args f e in
      elim (Bool-cases (name == codes "state-dir")) [
        | inl a ↦ rw ((==_iff name (codes "state-dir")).0 a) defined
        | inr a ↦ absurd (not_given name value a (ap (λ d. Dict.lookup name d) (sym same) ∙ found))
      ];
}

initializes :
    execute (load library files read) parse_flags (codes "init" ∷ [])
    ≡ ok (initialize (only_state_dir (codes "/state")))
unfolding execute with_flags configuration flag_names flag_value was_given Dict.lookup plan_of
    is_absolute has_prefix text_eq
initializes = refl

execute-IsChecked_example : IsChecked files (initialize (only_state_dir (codes "/state")))
execute-IsChecked_example =
    execute-IsChecked library files read parse_flags parse_flags-IsFlagParser (codes "init" ∷ [])
      (initialize (only_state_dir (codes "/state"))) initializes
