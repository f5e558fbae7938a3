-- ===== src/Store/Apply/Stages.antt =====
-- What the stages of `Apply` do to the destination on a quiet disk.
use backuply.Base.{
  ◌≡◌, ◌≢◌, ◌<◌, ◌⊎◌, inl, inr, ap, ◌∙◌, arith, true, Option, none, some, List, [], ◌∷◌, length,
  text_eq, ◌==◌, ==_iff,
}
use backuply.Text.{Text}
use backuply.Model.{Block, Entry, Stats}
use backuply.Store.Codec.{Codec}
use backuply.Store.Disk.{Disk, Volume, FilePath, regular, Node, node_at}
use backuply.Store.Exec.{Exec, World, ◌>>◌, pure, step}
use backuply.Store.Exec.Keeps.{
  Keeps, Triple, On, Triple-bind, Triple-conseq, Triple-pure, Triple-require, Keeps-step,
  Keeps-pure, Keeps-bind,
}
use backuply.Store.Root.{rename}
use backuply.Store.Root.Writes.{
  Has, Holds, Staged, Staged-Has, Triple-append_file, Triple-chmod-Staged, Triple-rename,
  Keeps-mkdir_all,
}
use backuply.Store.Folder.{
  parent, ensure_directory, ensure_parents, check_folder, check_marker, check_components, sync_dir,
}
use backuply.Store.Folder.Reads.{
  Keeps-check_components, Keeps-check_folder, Keeps-check_marker, Keeps-sync_dir,
}
use backuply.Store.Apply.{
  Fetch, Previous, Progress, add_block, reuse, or_fetch, write_blocks, publish, recheck, put,
}
use backuply.Store.Apply.Reads.{Keeps-reuse_block, Keeps-fetch_block, Keeps-recheck, Keeps-put}

-- A whole file with the entry's content and permissions.
pub record IsComplete (c : Codec) (e : Entry) (n : Node) : Type 0 where
  pub kind : n.kind ≡ regular
  pub hash : c.hash_bytes n.bytes ≡ e.hash
  pub mode : n.mode ≡ e.mode

-- The destination is as it was found, or complete.
pub record IsSafe (c : Codec) (e : Entry) (v : Volume) (p : FilePath) (o : Option Node) (d : Disk)
    : Type 0 where
  pub safe : (node_at d v p ≡ o) ⊎ Holds v p (IsComplete c e) d

module _ (v : Volume) (p : FilePath) (o : Option Node) where
  Keeps-ensure_directory :
      (parts : FilePath)
      → length parts < length p
      → Keeps (On (Has v p o)) (ensure_directory v parts)
  unfolding ensure_directory
  Keeps-ensure_directory [] h = Keeps-pure tt
  Keeps-ensure_directory (part ∷ more) h =
      Keeps-bind (Keeps-check_components v _ true)
        (λ _. Keeps-mkdir_all v p o _ [] (part ∷ more) (omega (arith, h)))

  pub Keeps-ensure_parents :
      length (parent p) < length p → Keeps (On (Has v p o)) (ensure_parents v p)
  unfolding ensure_parents
  Keeps-ensure_parents h = Keeps-ensure_directory (parent p) h

module _ (c : Codec) (e : Entry) (v : Volume) (p tmp : FilePath) (o : Option Node) (apart : tmp ≢ p)
    (below : tmp ≢ []) where
  abbrev Content : Text → Node → Type 0
  Content content n = (n.kind ≡ regular) × (n.bytes ≡ content)

  abbrev Found : World → Type 0
  Found = On (Has v p o)

  abbrev Safe : World → Type 0
  Safe = On (IsSafe c e v p o)

  Found-Safe : (w : World) → Found w → Safe w
  Found-Safe w h = record { quiet = h.quiet; disk = record { safe = inl h.disk.node } }

  Holds-Safe : (w : World) → On (Holds v p (IsComplete c e)) w → Safe w
  Holds-Safe w h = record { quiet = h.quiet; disk = record { safe = inr h.disk } }

  module _ {A : Type 0} {N : Node → Type 0} where
    -- An action that reads, while the temporary file is there
    staged :
        {m : Exec A}
        → Keeps (On (Staged v p o tmp N)) m
        → Triple (On (Staged v p o tmp N)) m (λ _. On (Staged v p o tmp N)) Found
    staged k = Triple-conseq (λ w h. h) k (λ _ w h. h) (Staged-Has v p tmp o apart)

    Staged-Safe :
        {m : Exec A}
        → Keeps (On (Staged v p o tmp N)) m
        → Triple (On (Staged v p o tmp N)) m (λ _. On (Staged v p o tmp N)) Safe
    Staged-Safe k =
        Triple-conseq (λ w h. h) k (λ _ w h. h)
          (λ w h. Found-Safe w (Staged-Has v p tmp o apart w h))

  complete :
      {content : Text}
      → (c.hash_bytes content == e.hash) ≡ true
      → (w : World)
      → On (Staged v p o tmp (λ n. (n.kind ≡ regular) × (n.bytes ≡ content) × (n.mode ≡ e.mode))) w
      → On (Staged v p o tmp (IsComplete c e)) w
  complete {content} same w h = record {
    quiet = h.quiet;
    disk = record {
      kept = h.disk.kept;
      node = h.disk.node;
      there = h.disk.there;
      good = record {
        kind = h.disk.good.0;
        hash = ap c.hash_bytes h.disk.good.1 ∙ (==_iff _ _).0 same;
        mode = h.disk.good.2;
      };
    };
  }

  renamed :
      {A : Type 0} {m : Exec A}
      → Keeps (On (Holds v p (IsComplete c e))) m
      → Triple (On (Holds v p (IsComplete c e))) m (λ _. On (Holds v p (IsComplete c e))) Safe
  renamed k = Triple-conseq (λ w h. h) k (λ _ w h. h) Holds-Safe

  Keeps-or_fetch :
      {D : Disk → Type 0} (fetch : Fetch) (b : Block) (known : Option Text)
      → Keeps (On D) (or_fetch c fetch b known)
  unfolding or_fetch
  Keeps-or_fetch fetch b (some d) = Keeps-pure _
  Keeps-or_fetch fetch b none = Keeps-bind (Keeps-fetch_block c fetch b) (λ d. Keeps-pure _)

  -- The temporary file holds exactly what was gathered for the checksum.
  pub Triple-write_blocks :
      (fetch : Fetch) (prev : Previous) (bs : List Block) (acc : Progress)
      → Triple
          (On (Staged v p o tmp (Content acc.content)))
          (write_blocks c fetch v tmp prev bs acc)
          (λ done. On (Staged v p o tmp (Content done.content)))
          Found
  unfolding write_blocks
  Triple-write_blocks fetch prev [] acc = Triple-pure acc (λ w h. h)
  Triple-write_blocks fetch prev (b ∷ bs) acc = Triple-bind (staged Keeps-step) (λ _.
      Triple-bind (staged (Keeps-reuse_block c b (reuse prev b))) (λ known.
        Triple-bind (staged (Keeps-or_fetch fetch b known)) (λ got.
          Triple-bind (Triple-append_file v p tmp o apart below acc.content got.content)
            (λ _. Triple-write_blocks fetch prev bs (add_block got acc)))))

  -- The stages of `publish` behind the change of permissions
  publish-IsComplete :
      (folder root : Text) (prev : Previous) (done : Progress)
      → p ≢ []
      → Triple
          (On (Staged v p o tmp (IsComplete c e)))
          (do
            step
            step
            check_folder root folder
            check_marker v folder
            check_components v e.path true
            recheck c e v p prev
            step
            rename v tmp p
            sync_dir v (parent p)
            put c folder e
            pure (record { files = 1; bytes_received = done.received; bytes_reused = done.reused }))
          (λ (_ : Stats). On (Holds v p (IsComplete c e)))
          Safe
  publish-IsComplete folder root prev done dest = Triple-bind (Staged-Safe Keeps-step) (λ _.
      Triple-bind (Staged-Safe Keeps-step) (λ _.
        Triple-bind (Staged-Safe (Keeps-check_folder root folder)) (λ _.
          Triple-bind (Staged-Safe (Keeps-check_marker v folder)) (λ _.
            Triple-bind (Staged-Safe (Keeps-check_components v e.path true)) (λ _.
              Triple-bind (Staged-Safe (Keeps-recheck c e v p prev)) (λ _.
                Triple-bind (Staged-Safe Keeps-step) (λ _.
                  Triple-bind
                    (Triple-conseq (λ w h. h) (Triple-rename v p tmp o apart below dest)
                      (λ _ w h. h) Found-Safe)
                    (λ _. Triple-bind (renamed (Keeps-sync_dir v (parent p))) (λ _.
                      Triple-bind (renamed (Keeps-put c folder e))
                        (λ _. Triple-pure _ (λ w h. h)))))))))))

  -- What is published is complete, and before that nothing changes at the destination.
  pub Triple-publish :
      (folder root : Text) (prev : Previous) (done : Progress)
      → p ≢ []
      → Triple
          (On (Staged v p o tmp (Content done.content)))
          (publish c folder root e v p tmp prev done)
          (λ _. On (Holds v p (IsComplete c e)))
          Safe
  unfolding publish
  Triple-publish folder root prev done dest =
      Triple-require (c.hash_bytes done.content == e.hash) _ _
        (λ same.
          Triple-bind
            (Triple-conseq (λ w h. h)
              (Triple-chmod-Staged v p tmp o apart below done.content e.mode)
              (λ _ w h. complete same w h) Found-Safe)
            (λ _. publish-IsComplete folder root prev done dest))
        (λ w h. Found-Safe w (Staged-Has v p tmp o apart w h))
