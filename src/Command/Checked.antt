-- ===== src/Command/Checked.antt =====
-- With which configurations the operations are run.
use mathlib.Core.Path.{subst}
use backuply.Base.{
  ◌≡◌, ◌≢◌, ◌⊎◌, inl, inr, true, refl, sym, ap, arith, ◌||◌, not, List, [], ◌∷◌, ◌=ℕ◌, text_eq,
  ◌==◌, ==_iff, contains, Bool-cases, Option-cases, some,
}
use backuply.Base.Dict
use backuply.Base.Result.{Result, ok, err, ok-injective, bind-eq-ok, guard}
use backuply.Text.{Text, codes}
use backuply.Config.{Config}
use backuply.Config.Error.{Error as ConfigError}
use backuply.Config.Library.{Library, Files}
use backuply.Config.Paths.{is_absolute}
use backuply.Config.Parse.{read_config}
use backuply.Config.Validate.{validate, parse, load}
use backuply.Command.{
  flag_names, or_default, flag_value, was_given, state_dir_of, Flags, Parsed, help, failed, parsed,
  Plan, show_usage, show_version, nothing, report_ok, initialize, show_id, query_status, run_daemon,
  commands, plan_of, or_bad_config, configuration, with_flags, execute,
}

-- `Parse` of the package flag fails on a flag that is not defined.
pub record IsFlagParser (parse_flags : List Text → List Text → Parsed) : Type 0 where
  pub defined :
      (names args : List Text) (f : Flags) (name value : Text)
      → parse_flags names args ≡ parsed f
      → Dict.lookup name f.given ≡ some value
      → contains name names ≡ true

-- What runs or queries the daemon has a configuration that `Validate` accepts. What is initialized has
-- one as well, or no folders.
abbrev pub IsChecked : Files → Plan → Type 0
IsChecked files show_usage = Unit
IsChecked files show_version = Unit
IsChecked files nothing = Unit
IsChecked files report_ok = Unit
IsChecked files (initialize cfg) = (validate files cfg ≡ ok tt) ⊎ (cfg.folders ≡ [])
IsChecked files (show_id cfg) = (validate files cfg ≡ ok tt) ⊎ (cfg.folders ≡ [])
IsChecked files (query_status cfg) = validate files cfg ≡ ok tt
IsChecked files (run_daemon cfg) = validate files cfg ≡ ok tt

abbrev IsOwn : Text → Type 0
IsOwn command = (command ≡ codes "init") ⊎ (command ≡ codes "id")

-- The commands that define the flag
has-state_dir :
    (command : Text) → contains (codes "state-dir") (flag_names command) ≡ true → IsOwn command
unfolding flag_names text_eq
has-state_dir command h = elim (Bool-cases (command == codes "init")) [
  | inl a ↦ inl ((==_iff command (codes "init")).0 a)
  | inr a ↦ elim (Bool-cases (command == codes "id")) [
    | inl b ↦ inr ((==_iff command (codes "id")).0 b)
    | inr b ↦ let k = rw (a, b) at h in cc
  ]
]

plan_of-IsChecked :
    (files : Files) (command : Text) (cfg : Config)
    → (validate files cfg ≡ ok tt) ⊎ (IsOwn command × (cfg.folders ≡ []))
    → IsChecked files (plan_of command cfg)
unfolding plan_of
plan_of-IsChecked files command cfg (inl valid) = elim (Bool-cases (command == codes "check")) [
  | inl a ↦ rw a tt
  | inr a ↦ elim (Bool-cases (command == codes "init")) [
    | inl b ↦ rw (a, b) (inl valid)
    | inr b ↦ elim (Bool-cases (command == codes "id")) [
      | inl d ↦ rw (a, b, d) (inl valid)
      | inr d ↦ elim (Bool-cases (command == codes "status")) [
        | inl e ↦ rw (a, b, d, e) valid
        | inr e ↦ rw (a, b, d, e) valid
      ]
    ]
  ]
]
plan_of-IsChecked files command cfg (inr (inl own, none_)) = unfold text_eq in rw own (inr none_)
plan_of-IsChecked files command cfg (inr (inr own, none_)) = unfold text_eq in rw own (inr none_)

module _ (lib : Library) (files : Files) (read : Text → Result ConfigError Text) where
  parse-validate :
      (text : Text) (cfg : Config) → parse lib files text ≡ ok cfg → validate files cfg ≡ ok tt
  unfolding parse
  parse-validate text cfg h =
      let (c, _, h1) = bind-eq-ok (read_config lib text) _ h in
      let (_, valid, h2) = bind-eq-ok (validate files c) _ h1 in
      subst (λ x. validate files x ≡ ok tt) (ok-injective h2) valid

  load-validate :
      (path : Text) (cfg : Config) → load lib files read path ≡ ok cfg → validate files cfg ≡ ok tt
  unfolding load
  load-validate path cfg h =
      let (text, _, h1) = bind-eq-ok (read path) _ h in parse-validate text cfg h1

  or_bad_config-ok :
      (r : Result ConfigError Config) (cfg : Config) → or_bad_config r ≡ ok cfg → r ≡ ok cfg
  unfolding or_bad_config
  or_bad_config-ok (ok c) cfg h = ap ok (ok-injective h)
  or_bad_config-ok (err e) cfg h = cc

  configuration-ok :
      (flags : Flags) (cfg : Config)
      → configuration (load lib files read) flags ≡ ok cfg
      → (validate files cfg ≡ ok tt) ⊎ ((state_dir_of flags ≢ []) × (cfg.folders ≡ []))
  unfolding configuration
  configuration-ok flags cfg h = elim (Bool-cases (state_dir_of flags == [])) [
    | inl empty ↦ inl (load-validate _ cfg (or_bad_config-ok _ cfg (rw empty at h)))
    | inr given ↦
        let k = rw given at h in
        let (_, _, k1) = bind-eq-ok (guard (is_absolute (state_dir_of flags)) _) _ k in
        let (_, _, k2) = bind-eq-ok (guard (not (was_given (codes "config") flags)) _) _ k1 in
        inr (
          ground (arith, given, ==_iff (state_dir_of flags) []),
          ap (λ c. c.folders) (sym (ok-injective k2)),
        )
  ]

  module _ (parse_flags : List Text → List Text → Parsed) (fine : IsFlagParser parse_flags) where
    IsOwn-command :
        (command : Text) (args : List Text) (f : Flags)
        → parse_flags (flag_names command) args ≡ parsed f
        → state_dir_of f ≢ []
        → IsOwn command
    IsOwn-command command args f e given =
        elim (Option-cases (Dict.lookup (codes "state-dir") f.given)) [
          | inl absent ↦ absurd (given (unfold flag_value in ap (or_default []) absent))
          | inr (value, found) ↦
              has-state_dir command (fine.defined (flag_names command) args f _ value e found)
        ]

    with_flags-IsChecked :
        (command : Text) (args : List Text) (p : Parsed) (plan : Plan)
        → parse_flags (flag_names command) args ≡ p
        → with_flags (load lib files read) command p ≡ ok plan
        → IsChecked files plan
    unfolding with_flags
    with_flags-IsChecked command args help plan e h = subst (IsChecked files) (ok-injective h) tt
    with_flags-IsChecked command args failed plan e h = cc
    with_flags-IsChecked command args (parsed f) plan e h =
        let (_, _, h1) = bind-eq-ok (guard (f.left =ℕ 0) _) _ h in
        let (cfg, done, h2) = bind-eq-ok (configuration (load lib files read) f) _ h1 in
        subst (IsChecked files) (ok-injective h2) (
          plan_of-IsChecked files command cfg (elim (configuration-ok f cfg done) [
            | inl valid ↦ inl valid
            | inr (given, none_) ↦ inr (IsOwn-command command args f e given, none_)
          ]))

    -- Whatever the arguments: if `execute` runs or queries the daemon, the configuration is one that
    -- `Validate` accepts, and if it initializes a device or shows its ID, then so, or the configuration
    -- has no folders, provided that the package flag fails on a flag that is not defined.
    pub execute-IsChecked :
        (args : List Text) (plan : Plan)
        → execute (load lib files read) parse_flags args ≡ ok plan
        → IsChecked files plan
    unfolding execute
    execute-IsChecked [] plan h = cc
    execute-IsChecked (command ∷ args) plan h =
        elim (Bool-cases
          (command == codes "help" || command == codes "-h" || command == codes "--help")) [
            | inl a ↦ subst (IsChecked files) (ok-injective (rw (execute, a) at h)) tt
            | inr a ↦ elim (Bool-cases (command == codes "version")) [
              | inl b ↦ subst (IsChecked files) (ok-injective (rw (execute, a, b) at h)) tt
              | inr b ↦ elim (Bool-cases (contains command commands)) [
                | inl d ↦
                    with_flags-IsChecked command args (parse_flags (flag_names command) args) plan
                      refl (rw (a, b, d) at h)
                | inr d ↦ let k = rw (a, b, d) at h in cc
              ]
            ]
          ]
