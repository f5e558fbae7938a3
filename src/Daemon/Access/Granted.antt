-- ===== src/Daemon/Access/Granted.antt =====
-- To whom a folder is open, and what is read of it then.
use backuply.Base.{
  ◌⊎◌, ◌≡◌, refl, sym, ap, ◌∙◌, arith, inl, inr, true, Option, none, some, List, [], ◌∷◌, text_eq,
  ◌==◌, ==_iff, any, contains, Bool-cases,
}
use mathlib.Core.Path.{subst}
use backuply.Base.Dict
use backuply.Base.Result.{Result, ok, err, ok-injective}
use backuply.Base.Action.{pure, fail, lift, gets, ◌>>=◌}
use backuply.Base.Action.Inversion.{bind-ok, require-ok}
use backuply.Text.{Text}
use backuply.Model.{Block, Entry}
use backuply.Config.{Config, Folder, local}
use backuply.Store.Error.{Error as StoreError}
use backuply.Store.Codec.{Codec}
use backuply.Store.Index
use backuply.Store.Source.Sound.{IsBlockOf, served_block_sound}
use backuply.Store.Exec.{World, step}
use backuply.Store.Exec.Keeps.{Keeps-after}
use backuply.Store.Exec.Inversion.{step-db}
use backuply.Store.Folder.{check_folder}
use backuply.Store.Folder.Untouched.{At-check_folder}
use backuply.Store.Listing.{list as store_list}
use backuply.Store.Source.{read_block as store_read_block}
use backuply.Daemon.Status.{status_or_zero, is_available}
use backuply.Daemon.Access.{
  Shared, from_store, call, or_denied, device_of, is_peer, check_source, authorize, query, list,
  read_block,
}

-- The folder is configured and shared with the peer, and if it is the device's own, it is available.
pub record IsGranted (cfg : Config) (peer id : Text) (f : Folder) (w : Shared) : Type 0 where
  pub configured : Dict.lookup id cfg.folders ≡ some f
  pub name : Text
  pub named : contains name f.peers ≡ true
  pub device : device_of cfg name ≡ peer
  pub available :
      f.source ≡ local → is_available (status_or_zero (Dict.lookup id w.statuses)) ≡ true

some_peer :
    (cfg : Config) (peer : Text) (names : List Text)
    → any (λ name. device_of cfg name == peer) names ≡ true
    → (name : Text) × (contains name names ≡ true) × (device_of cfg name ≡ peer)
some_peer cfg peer [] h = cc
some_peer cfg peer (x ∷ xs) h = elim (Bool-cases (device_of cfg x == peer)) [
  | inl same ↦ (x, ground (arith, ==_iff x x), (==_iff (device_of cfg x) peer).0 same)
  | inr other ↦
      let (name, among, device) = some_peer cfg peer xs (ground (arith, h, other)) in
      (name, ground (arith, among), device)
]

or_denied-ok : (o : Option Folder) (f : Folder) → or_denied o ≡ ok f → o ≡ some f
unfolding or_denied
or_denied-ok none f h = cc
or_denied-ok (some g) f h = ap some (ok-injective h)

from_store-ok : {A : Type 0} (r : Result StoreError A) (a : A) → from_store r ≡ ok a → r ≡ ok a
unfolding from_store
from_store-ok (ok b) a h = ap ok (ok-injective h)
from_store-ok (err e) a h = cc

check_source-ok :
    (id : Text) (f g : Folder) (w : Shared)
    → (check_source id f w).0 ≡ ok g
    → (f ≡ g)
      × ((check_source id f w).1 ≡ w)
      × (f.source ≡ local → is_available (status_or_zero (Dict.lookup id w.statuses)) ≡ true)
unfolding check_source gets pure fail ◌>>=◌
check_source-ok id f g w h = elim (Bool-cases (f.source == local)) [
  | inl own ↦ elim (Bool-cases (is_available (status_or_zero (Dict.lookup id w.statuses)))) [
    | inl fine ↦ let k = rw (own, fine) at h in (ok-injective k, rw (own, fine) refl, λ _. fine)
    | inr out ↦ let k = rw (own, out) at h in cc
  ]
  | inr other ↦
      let k = rw other at h in
      (
        ok-injective k,
        rw other refl,
        λ own. absurd (ground (arith, other, (==_iff f.source local).1 own)),
      )
]

module _ (cfg : Config) (peer id : Text) where
  pub authorize-ok :
      (f : Folder) (w : Shared)
      → (authorize cfg peer id w).0 ≡ ok f
      → IsGranted cfg peer id f w × ((authorize cfg peer id w).1.world.db ≡ w.world.db)
  unfolding authorize is_peer call lift
  authorize-ok f w h =
      let (g, found, h1, s1) = bind-ok (lift (or_denied (Dict.lookup id cfg.folders))) _ w h in
      let (shared, h2, s2) = require-ok (is_peer cfg peer g) _ _ w h1 in
      let (_, _, h3, s3) = bind-ok (call (check_folder g.path g.id)) _ w h2 in
      let (same, s4, available) = check_source-ok id g f _ h3 in
      let (name, named, device) = some_peer cfg peer g.peers shared in
      (
        subst (λ x. IsGranted cfg peer id x w) same
            (record {
              configured = or_denied-ok _ g found;
              name = name;
              named = named;
              device = device;
              available = available;
            }),
        ap (λ x. x.1.world.db) (s1 ∙ s2 ∙ s3)
            ∙ ap (λ x. x.world.db) s4
            ∙ Keeps-after w.world (At-check_folder {d = w.world.db} g.path g.id) refl,
      )

Result-cases :
    {A : Type 0} (r : Result StoreError A)
    → ((a : A) × (r ≡ ok a)) ⊎ ((e : StoreError) × (r ≡ err e))
Result-cases (ok a) = inl (a, refl)
Result-cases (err e) = inr (e, refl)

query-ok :
    (c : Codec) (id : Text) (es : List Entry) (w : World)
    → (query c id w).0 ≡ ok es
    → store_list c id w.db ≡ ok es
unfolding query
query-ok c id es w h = elim (Result-cases (step w).0) [
  | inl (_, fine) ↦ ap (λ d. store_list c id d) (sym (step-db w)) ∙ rw (query, fine) at h
  | inr (e, failed) ↦ let k = rw (query, failed) at h in cc
]

-- Whatever other processes do meanwhile, a list that the daemon gives to a peer is what the index holds
-- of a configured folder, and one of the folder's peers has the peer's device ID; a folder of the
-- device's own is available by its status then.
pub list_lem :
    (cfg : Config) (c : Codec) (peer id : Text) (es : List Entry) (w : Shared)
    → (list cfg c peer id w).0 ≡ ok es
    → (f : Folder) × IsGranted cfg peer id f w × (store_list c id w.world.db ≡ ok es)
unfolding list call
list_lem cfg c peer id es w h =
    let (f, done, h1, _) = bind-ok (authorize cfg peer id) _ w h in
    let (granted, same) = authorize-ok cfg peer id f w done in
    (
      f,
      granted,
      ap (λ d. store_list c id d) (sym same) ∙ query-ok c id es _ (from_store-ok _ es h1),
    )

-- Whatever other processes do meanwhile, a block that the daemon gives to a peer belongs to a folder that
-- is open to the peer in the same way, stands at its offset in a valid indexed entry with the hash that
-- was asked for, and the data have its checksum.
pub read_block_lem :
    (cfg : Config) (c : Codec) (peer id path hash : Text) (b : Block) (found : Text) (w : Shared)
    → (read_block cfg c peer id path hash b w).0 ≡ ok found
    → (f : Folder) × IsGranted cfg peer id f w
      × (e : Entry) × (Index.get c id path w.world.db ≡ ok e)
      × IsBlockOf e hash b
      × (c.hash_bytes found ≡ b.hash)
unfolding read_block call
read_block_lem cfg c peer id path hash b found w h =
    let (f, done, h1, _) = bind-ok (authorize cfg peer id) _ w h in
    let (granted, same) = authorize-ok cfg peer id f w done in
    let w1 = (authorize cfg peer id w).1.world in
    let (e, _, got, block, sum) =
      served_block_sound c id f.path path hash b w1 (
        ap (λ r. (r, (store_read_block c id f.path path hash b w1).1))
          (from_store-ok _ found h1)) in
    (f, granted, e, ap (λ d. Index.get c id path d) (sym same) ∙ got, block, sum)
