-- ===== src/Daemon/Replicate/Installs.antt =====
-- What `replicate` does with the list of a peer, as calls of `Apply` one after the other.
use mathlib.Core.List.{Permᴰ}
use backuply.Base.{ℕ, ◌≡◌, refl, Option, none, some, List, [], ◌∷◌, length}
use backuply.Base.Result.{Result, ok, err}
use backuply.Base.Action.{pure, try, change, ◌>>=◌, ◌>>◌}
use backuply.Text.{Text}
use backuply.Model.{Entry, Stats, no_stats}
use backuply.Config.{Folder}
use backuply.Store.Error.{Error as StoreError}
use backuply.Store.Codec.{Codec}
use backuply.Store.Exec.{World}
use backuply.Store.Apply.{apply}
use backuply.Daemon.Status.{update}
use backuply.Daemon.Access.{in_store, from_store, call}
use backuply.Daemon.Replicate.{
  Client, Worker, Failure, of_store, from_shared, from_wire, with_shared, sort_entries, add_stats,
  close, report, Outcome, apply_entry, apply_entries, update_of, close_after, synchronize,
  fetch_folder,
}
use backuply.Daemon.Replicate.Sorted.{IsParentsFirst, sort-IsParentsFirst, sort-perm}

-- The worker, with another disk and index
abbrev pub moved : World → Worker → Worker
moved u w = record w { shared = record w.shared { world = u } }

module _ (c : Codec) (text : Failure → Text) (now : Text → ℕ) (nonce : Entry → Text) (f : Folder)
    (client : Client) where
  abbrev pub applied : Entry → World → Result StoreError Stats × World
  applied e = apply c (nonce e) (some (client.read_block f.id e)) f.id f.path e

  -- `Apply` of each entry in turn, up to the first that fails, adding up what they transferred
  pub data Installs : List Entry → Stats → Worker → Outcome → Worker → Type 0 where
    all_done :
        (total : Stats) (w : Worker)
        → Installs [] total w (record { error = none; total = total }) w
    installed :
        (e : Entry) (es : List Entry) (total stats : Stats) (u : World) (o : Outcome)
        (w w' : Worker)
        → applied e w.shared.world ≡ (ok stats, u)
        → Installs es (add_stats total stats) (moved u w) o w'
        → Installs (e ∷ es) total w o w'
    stopped :
        (e : Entry) (es : List Entry) (total : Stats) (u : World) (x : StoreError) (w : Worker)
        → applied e w.shared.world ≡ (err x, u)
        → Installs
            (e ∷ es)
            total
            w
            (record { error = some (of_store (in_store x)); total = total })
            (moved u w)

  -- The status tells of it, and after an error the connection is given up.
  abbrev pub finished : List Entry → Outcome → Worker → Worker
  finished es o w = record {
    shared = record {
      world = w.shared.world;
      statuses =
          update (update_of c text now nonce f (length es) o.total o.error) w.shared.statuses;
    };
    client = elim o.error [ none ↦ w.client | some x ↦ none ];
    dials = w.dials;
  }

  abbrev IsDone : List Entry → Stats → Worker → Type 0
  IsDone es total w =
      (o : Outcome) × (w' : Worker) × Installs es total w o w'
      × (apply_entries c text now nonce f client es total w ≡ (ok o, w'))

  one-Installs :
      (e : Entry) (es : List Entry) (total : Stats) (w : Worker) (r : Result StoreError Stats)
      (u : World)
      → applied e w.shared.world ≡ (r, u)
      → ((t : Stats) (v : Worker) → IsDone es t v)
      → IsDone (e ∷ es) total w
  unfolding apply_entries apply_entry with_shared call from_shared from_store try pure ◌>>=◌
  one-Installs e es total w (ok stats) u h next =
      let (o, w', rest, same) = next (add_stats total stats) (moved u w) in
      (o, w', installed e es total stats u o w w' h rest, rw h same)
  one-Installs e es total w (err x) u h next = (
    record { error = some (of_store (in_store x)); total = total },
    moved u w,
    stopped e es total u x w h,
    rw h refl,
  )

  apply_entries-Installs : (es : List Entry) (total : Stats) (w : Worker) → IsDone es total w
  unfolding apply_entries pure
  apply_entries-Installs [] total w =
      (record { error = none; total = total }, w, all_done total w, refl)
  apply_entries-Installs (e ∷ es) total w =
      one-Installs e es total w (applied e w.shared.world).0 (applied e w.shared.world).1 refl
        (apply_entries-Installs es)

  ending :
      (es : List Entry) (o : Outcome) (w : Worker)
      → (report (update_of c text now nonce f (length es) o.total o.error)
            >> close_after c text now nonce o.error)
          w
        ≡ (ok tt, finished es o w)
  unfolding report close_after close change pure ◌>>=◌
  ending es o w = last o.error o.total
    where
      last :
          (error : Option Failure) (total : Stats)
          → (report (update_of c text now nonce f (length es) total error)
                >> close_after c text now nonce error)
              w
            ≡ (ok tt, finished es (record { error = error; total = total }) w)
      last none total = refl
      last (some x) total = refl

  -- When the peer has listed a folder, `replicate` calls `Apply` for exactly the listed entries, in an
  -- order in which each directory comes before what lies below it, and stops at the first that fails.
  -- Then it puts the number of entries, the sums and the error into the folder's status, and after
  -- an error it gives the connection up.
  pub fetch_folder-Installs :
      (es : List Entry) (w : Worker)
      → client.list f.id ≡ ok es
      → (order : List Entry) × Permᴰ order es
        × IsParentsFirst order
        × (o : Outcome) × (w' : Worker) × Installs order no_stats w o w'
        × (fetch_folder c text now nonce f (ok client) w ≡ (ok tt, finished es o w'))
  unfolding fetch_folder from_wire synchronize ◌>>=◌
  fetch_folder-Installs es w listed =
      let (o, w', run, same) = apply_entries-Installs (sort_entries es) no_stats w in
      (
        sort_entries es,
        sort-perm es,
        sort-IsParentsFirst es,
        o,
        w',
        run,
        rw (listed, same) (ending es o w'),
      )
