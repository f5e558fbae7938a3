-- ===== src/Store/Apply/Install.antt =====
-- What `Apply` of a file does to the destination: the new file, and the one that is there already.
use backuply.Base.{
  ℕ, ◌≡◌, ◌≢◌, ◌⊎◌, inl, inr, refl, ◌∙◌, true, Option, none, some, [], text_eq, ◌==◌, All,
}
use backuply.Base.Result.{Result, err}
use backuply.Text.{Text}
use backuply.Model.{Entry, blocks_eq, int_eq}
use backuply.Store.Error.{Error, io_error}
use backuply.Store.Path.Safe.{IsSafePart}
use backuply.Store.Codec.{Codec}
use backuply.Store.Disk.{
  Disk, Volume, FilePath, FileKind, regular, dir, symlink, special, Node, remove_node,
}
use backuply.Store.Exec.{Exec, World, try}
use backuply.Store.Exec.Keeps.{
  Keeps, Triple, On, Triple-bind, Triple-after, Triple-conseq, Triple-pure, Triple-fail,
  Triple-require, Triple-finally, Keeps-step, Keeps-after,
}
use backuply.Store.Root.{lstat}
use backuply.Store.Root.Writes.{
  Has, Holds, node_at-remove_other, Keeps-remove, Triple-create, Triple-chmod,
}
use backuply.Store.Root.Values.{
  Gives, Triple-known, answer, lstat-outcome, Mounted, Triple-open_root,
}
use backuply.Store.Root.Reads.{Keeps-open_file, Keeps-lstat}
use backuply.Store.Folder.{is_regular, open_folder}
use backuply.Store.Folder.Reads.{Keeps-check_marker}
use backuply.Store.Apply.{
  Fetch, Previous, nothing_yet, temp_path, or_missing, lstat?, reuse_in_place, install,
}
use backuply.Store.Apply.Reads.{Keeps-put}
use backuply.Store.Apply.Temp.{temp_path-ne, temp_path-ne_nil, length-parent}
use backuply.Store.Apply.Stages.{
  IsComplete, IsSafe, Keeps-ensure_parents, Triple-write_blocks, Triple-publish,
}

module _ (c : Codec) (e : Entry) (v : Volume) (p : FilePath) (o : Option Node) where
  module _ (tmp : FilePath) (apart : tmp ≢ p) where
    remove-Holds :
        (d : Disk) → Holds v p (IsComplete c e) d → Holds v p (IsComplete c e) (remove_node v tmp d)
    remove-Holds d h = record {
      node = h.node;
      there = node_at-remove_other v tmp p d apart ∙ h.there;
      good = h.good;
    }

    remove-IsSafe : (d : Disk) → IsSafe c e v p o d → IsSafe c e v p o (remove_node v tmp d)
    remove-IsSafe d h = elim h.safe [
      | inl kept ↦ record { safe = inl (node_at-remove_other v tmp p d apart ∙ kept) }
      | inr whole ↦ record { safe = inr (remove-Holds d whole) }
    ]

  pub found-IsSafe : (w : World) → On (Has v p o) w → On (IsSafe c e v p o) w
  found-IsSafe w h = record { quiet = h.quiet; disk = record { safe = inl h.disk.node } }

  module _ (nonce : Text) (fetch : Fetch) (folder root : Text) (safe : All IsSafePart p)
      (below : p ≢ []) where
    pub Triple-install :
        (prev : Previous)
        → Triple
            (On (Has v p o))
            (install c nonce fetch folder root e v p prev)
            (λ _. On (Holds v p (IsComplete c e)))
            (On (IsSafe c e v p o))
    unfolding install
    Triple-install prev =
        let tmp = temp_path nonce p in
        let apart = temp_path-ne nonce p safe in
        let tmp_below = temp_path-ne_nil nonce p in
        Triple-bind (found_only (Keeps-ensure_parents v p o (length-parent p below))) (λ _.
          Triple-bind (found_only Keeps-step) (λ _.
            Triple-bind
              (Triple-conseq (λ w h. h) (Triple-create v p tmp o apart tmp_below _) (λ _ w h. h)
                found-IsSafe)
              (λ _.
                Triple-finally
                  (Triple-bind
                    (Triple-conseq (λ w h. h)
                      (Triple-write_blocks c e v p tmp o apart tmp_below fetch prev e.blocks
                        nothing_yet)
                      (λ _ w h. h) found-IsSafe)
                    (λ done.
                      Triple-publish c e v p tmp o apart tmp_below folder root prev done below))
                  (λ _. Keeps-remove v tmp (remove-Holds tmp apart))
                  (Keeps-remove v tmp (remove-IsSafe tmp apart)))))
      where
        found_only :
            {A : Type 0} {m : Exec A}
            → Keeps (On (Has v p o)) m
            → Triple (On (Has v p o)) m (λ _. On (Has v p o)) (On (IsSafe c e v p o))
        found_only k = Triple-conseq (λ w h. h) k (λ _ w h. h) found-IsSafe

pub is_regular_iff : (k : FileKind) → is_regular k ≡ true → k ≡ regular
unfolding is_regular
is_regular_iff regular h = refl
is_regular_iff dir h = cc
is_regular_iff symlink h = cc
is_regular_iff special h = cc

missing_lem :
    (v : Volume) (p : FilePath) (o : Option Node)
    → Triple (On (Has v p o)) (or_missing (answer o)) (Gives (Has v p o) o) (On (Has v p o))
unfolding or_missing
missing_lem v p none = Triple-pure none (λ w h. record { on = h; value = refl })
missing_lem v p (some n) = Triple-pure (some n) (λ w h. record { on = h; value = refl })

-- The two ways in which `Lstat` can end
abbrev IsAnswer : Option Node → Result Error Node → Type 0
IsAnswer o r = (r ≡ answer o) ⊎ ((n : ℕ) × (r ≡ err (io_error n)))

module _ (v : Volume) (p : FilePath) (o : Option Node) where
  or_missing_lem :
      (r : Result Error Node)
      → IsAnswer o r
      → Triple (On (Has v p o)) (or_missing r) (Gives (Has v p o) o) (On (Has v p o))
  unfolding or_missing
  or_missing_lem r (inl e) = rw e (missing_lem v p o)
  or_missing_lem r (inr (n, e)) = rw (e, or_missing) (Triple-fail _ (λ w h. h))

  try-lstat :
      Triple
        (On (Has v p o))
        (try (lstat v p))
        (λ r w. On (Has v p o) w × IsAnswer o r)
        (On (Has v p o))
  unfolding try
  try-lstat = record { run = λ w h. (Keeps-after w (Keeps-lstat v p) h, lstat-outcome v p o w h) }

  pub Triple-lstat? : Triple (On (Has v p o)) (lstat? v p) (Gives (Has v p o) o) (On (Has v p o))
  unfolding lstat?
  Triple-lstat? =
      Triple-bind try-lstat (λ r. record { run = λ w h. (or_missing_lem r h.1).run w h.0 })

module _ (root : Text) (v : Volume) (p : FilePath) (o : Option Node) where
  pub Triple-open_folder :
      (folder : Text)
      → Triple
          (On (Mounted root v p o))
          (open_folder root folder)
          (Gives (Mounted root v p o) v)
          (On (Mounted root v p o))
  unfolding open_folder
  Triple-open_folder folder = Triple-known _ (Triple-open_root root v p o) (
      Triple-after (Keeps-check_marker v folder)
        (λ _. Triple-pure v (λ w h. record { on = h; value = refl })))

module _ (c : Codec) (e : Entry) (v : Volume) (p : FilePath) (below : p ≢ []) where
  kept_mode :
      (n : Node)
      → n.kind ≡ regular
      → c.hash_bytes n.bytes ≡ e.hash
      → (w : World) → On (Has v p (some (record n { mode = e.mode }))) w
      → On (Holds v p (IsComplete c e)) w
  kept_mode n k h w on = record {
    quiet = on.quiet;
    disk = record {
      node = record n { mode = e.mode };
      there = on.disk.node;
      good = record { kind = k; hash = h; mode = refl };
    };
  }

  pub Triple-reuse_in_place :
      (n : Node) (folder : Text) (current : Entry)
      → n.kind ≡ regular
      → c.hash_bytes n.bytes ≡ e.hash
      → Triple
          (On (Has v p (some n)))
          (reuse_in_place c folder e v p current)
          (λ _. On (Holds v p (IsComplete c e)))
          (On (IsSafe c e v p (some n)))
  unfolding reuse_in_place
  Triple-reuse_in_place n folder current k h =
      let safe = found-IsSafe c e v p (some n) in
      Triple-require (current.blocks == e.blocks) _ _
        (λ _. Triple-bind (Triple-conseq (λ w h. h) (Keeps-open_file v p) (λ _ w h. h) safe) (λ _.
          Triple-bind
            (Triple-conseq (λ w h. h) (Triple-chmod v p n e.mode below)
              (λ _ w on. kept_mode n k h w on) safe)
            (λ _.
              Triple-bind (whole Keeps-step)
                (λ _. Triple-bind (whole (Keeps-put c folder e)) (λ _. Triple-pure _ (λ w h. h))))))
        safe
    where
      whole :
          {A : Type 0} {m : Exec A}
          → Keeps (On (Holds v p (IsComplete c e))) m
          → Triple
              (On (Holds v p (IsComplete c e)))
              m
              (λ _. On (Holds v p (IsComplete c e)))
              (On (IsSafe c e v p (some n)))
      whole t =
          Triple-conseq (λ w h. h) t (λ _ w h. h)
            (λ w h. record { quiet = h.quiet; disk = record { safe = inr h.disk } })
