-- ===== src/Identity/Create/Kept.antt =====
-- What `LoadOrCreate` leaves as it is.
use backuply.Base.{
  ℕ, ◌≡◌, ◌≢◌, refl, sym, ap, ◌∙◌, arith, inl, inr, Bool, ◌&&◌, Option, none, some, List, [], ◌∷◌,
  text_eq, ◌==◌, ==_iff, Bool-cases,
}
use backuply.Base.Dict
use backuply.Base.Dict.{lookup-insert, lookup-erase}
use backuply.Base.Result.{Result, ok, err}
use backuply.Base.Action.{
  fail, lift, gets, change, ◌>>=◌, Preserves, Preserves-bind, Preserves-refused, Preserves-if,
  Preserves-try, Preserves-finally, Preserves-lift, Preserves-gets, Preserves-require,
}
use backuply.Text.{Text}
use backuply.Identity.Error.{Error, already_exists}
use backuply.Identity.Certificate.{Library}
use backuply.Identity.Directory.{
  File, Directory, Act, step, step_with, or_missing, lstat, put, add, create, remove,
}
use backuply.Identity.Load.{KeyLoader, check_file, or_incomplete, load}
use backuply.Identity.Create.{
  private_file, temp_name, publish, write_exclusive, make, load_or_create, is_missing,
}

-- The file stands under the name.
pub record Has (name : Text) (f : File) (w : Directory) : Type 0 where
  pub found : Dict.lookup name w.files ≡ some f

module _ (name : Text) (f : File) where
  Preserves-step_with : (faults : List (Option ℕ)) → Preserves (Has name f) (step_with faults)
  unfolding step_with
  Preserves-step_with [] = record { run = λ w h. h }
  Preserves-step_with (x ∷ faults) = record { run = λ w h. record { found = h.found } }

  Preserves-step : Preserves (Has name f) step
  unfolding step
  Preserves-step = record { run = λ w. (Preserves-step_with w.faults).run w }

  Preserves-lstat : (other : Text) → Preserves (Has name f) (lstat other)
  unfolding lstat
  Preserves-lstat other = Preserves-bind _ _ _ Preserves-step (λ _.
      Preserves-bind _ _ _ (Preserves-gets _ _) (λ found. Preserves-lift _ (or_missing found)))

  Preserves-put : (other : Text) (g : File) → name ≢ other → Preserves (Has name f) (put other g)
  unfolding put change
  Preserves-put other g n = record {
    run = λ w h. record {
      found = lookup-insert name other g w.files ∙ ground (arith, ==_iff name other, h.found);
    };
  }

  Preserves-remove : (other : Text) → name ≢ other → Preserves (Has name f) (remove other)
  unfolding remove change
  Preserves-remove other n = Preserves-bind _ _ _ Preserves-step (λ _. record {
    run = λ w h. record {
      found = lookup-erase name other w.files ∙ ground (arith, ==_iff name other, h.found);
    };
  })

  Preserves-add :
      (other : Text) (g : File) (o : Option File)
      → name ≢ other
      → Preserves (Has name f) (add other g o)
  unfolding add fail
  Preserves-add other g none n = Preserves-put other g n
  Preserves-add other g (some _) n = record { run = λ w h. h }

  -- The rest of `create`, whose name is looked up first
  at_name : (other : Text) (g : File) → Act (Unit {0})
  at_name other g = gets (λ w. Dict.lookup other w.files) >>= add other g

  refused_name :
      (g : File) (w : Directory) → Has name f w → at_name name g w ≡ (err already_exists, w)
  unfolding at_name add ◌>>=◌
  refused_name g w h = rw h.found refl

  Preserves-at_name : (other : Text) (g : File) → Preserves (Has name f) (at_name other g)
  unfolding at_name
  Preserves-at_name other g = elim (Bool-cases (name == other)) [
    | inl same ↦
        let e = (==_iff name other).0 same in
        record { run = λ w h. rw (sym e, refused_name g w h) h }
    | inr different ↦
        Preserves-bind _ _ _ (Preserves-gets _ _)
          (λ o. Preserves-add other g o (ground (arith, different, ==_iff name other)))
  ]

  Preserves-create : (other : Text) (g : File) → Preserves (Has name f) (create other g)
  unfolding create at_name
  Preserves-create other g = Preserves-bind _ _ _ Preserves-step (λ _. Preserves-at_name other g)

  refused_at :
      (r : Result Error (Unit {0})) (g : File) (w : Directory)
      → Has name f w
      → (e : Error) × (((lift r >>= λ _. at_name name g) w).0 ≡ err e)
  unfolding ◌>>=◌
  refused_at (ok tt) g w h = (already_exists, ap (λ x. x.0) (refused_name g w h))
  refused_at (err e) g w h = (e, refl)

  -- A name that is taken is refused.
  create-refused :
      (g : File) (w : Directory) → Has name f w → (e : Error) × ((create name g w).0 ≡ err e)
  unfolding create at_name ◌>>=◌
  create-refused g w h = refused_at (step w).0 g (step w).1 (Preserves-step.run w h)

  Preserves-publish :
      (temp other bytes : Text) → name ≢ temp → Preserves (Has name f) (publish temp other bytes)
  unfolding publish
  Preserves-publish temp other bytes n =
      let step_ = Preserves-step in
      Preserves-bind _ _ _ step_ (λ _. Preserves-bind _ _ _ (Preserves-put temp _ n) (λ _.
        Preserves-bind _ _ _ step_ (λ _. Preserves-bind _ _ _ step_ (λ _.
          Preserves-bind _ _ _ (Preserves-create other _)
            (λ _. Preserves-bind _ _ _ step_ (λ _. step_))))))

  Preserves-write_exclusive :
      (nonce other bytes : Text) → Preserves (Has name f) (write_exclusive nonce other bytes)
  unfolding write_exclusive
  Preserves-write_exclusive nonce other bytes =
      let temp = temp_name nonce in
      elim (Bool-cases (name == temp)) [
        | inl same ↦
            let e = (==_iff name temp).0 same in
            Preserves-refused _ _ _ (rw (sym e) (create-refused (private_file [])))
              (Preserves-create temp _)
        | inr different ↦
            let n : name ≢ temp = ground (arith, different, ==_iff name temp) in
            Preserves-bind _ _ _ (Preserves-create temp _) (λ _.
              Preserves-finally _ _ _ (Preserves-publish temp other bytes n)
                (Preserves-remove temp n))
      ]

  module _ (lib : Library) (load_pair : KeyLoader) (now : ℕ) where
    Preserves-check_file :
        (is_key : Bool) (other : Text) → Preserves (Has name f) (check_file is_key other)
    unfolding check_file
    Preserves-check_file is_key other =
        Preserves-bind _ _ _ (Preserves-try _ _ (Preserves-lstat other)) (λ found.
          Preserves-bind _ _ _ (Preserves-lift _ (or_incomplete found))
            (λ info. Preserves-bind _ _ _ (Preserves-require _ _ _) (λ _. Preserves-require _ _ _)))

    Preserves-load : Preserves (Has name f) (load lib load_pair now)
    unfolding load
    Preserves-load = Preserves-bind _ _ _ (Preserves-check_file _ _) (λ _.
        Preserves-bind _ _ _ (Preserves-check_file _ _) (λ _.
          Preserves-bind _ _ _ (Preserves-lstat _) (λ cert.
            Preserves-bind _ _ _ (Preserves-lstat _)
              (λ key. Preserves-bind _ _ _ (Preserves-lift _ _) (λ pair. Preserves-lift _ _)))))

    Preserves-load_or_create :
        (nonce nonce' : Text) (generated : Option (Text × Text))
        → Preserves (Has name f) (load_or_create lib load_pair now nonce nonce' generated)
    unfolding load_or_create make
    Preserves-load_or_create nonce nonce' generated =
        Preserves-bind _ _ _ (Preserves-try _ _ (Preserves-lstat _)) (λ cert.
          Preserves-bind _ _ _ (Preserves-try _ _ (Preserves-lstat _)) (λ key.
            Preserves-if _ (is_missing cert && is_missing key) _ _
              (Preserves-bind _ _ _
                (Preserves-bind _ _ _ Preserves-step (λ _.
                  Preserves-bind _ _ _ (Preserves-lift _ _) (λ pems.
                    Preserves-bind _ _ _ (Preserves-write_exclusive _ _ _)
                      (λ _. Preserves-write_exclusive _ _ _))))
                (λ _. Preserves-load))
              Preserves-load))

-- Whichever of its calls fail, or the process is killed: every file that was in the state directory,
-- the private key and the certificate among them, is there as it was after `LoadOrCreate`.
pub load_or_create-keeps :
    (lib : Library) (load_pair : KeyLoader) (now : ℕ) (nonce nonce' : Text)
    → (generated : Option (Text × Text)) (w : Directory) (name : Text) (f : File)
    → Dict.lookup name w.files ≡ some f
    → Dict.lookup name (load_or_create lib load_pair now nonce nonce' generated w).1.files ≡ some f
load_or_create-keeps lib load_pair now nonce nonce' generated w name f h =
    ((Preserves-load_or_create name f lib load_pair now nonce nonce' generated).run w
      (record { found = h })).found
