-- ===== src/Config/Validate/Tables.antt =====
-- The peers and the folders that `Validate` accepts.
use backuply.Base.{
  ◌≡◌, ◌≢◌, ◌↔◌, inl, inr, refl, arith, true, false, ◌||◌, some, List, [], ◌∷◌, text_eq, ◌==◌,
  ==_iff, contains, Option-cases, All,
}
use backuply.Base.Dict
use backuply.Base.Dict.{Dict}
use backuply.Base.Result.{ok}
use backuply.Text.{Text}
use backuply.Config.{Peer, Folder, local}
use backuply.Config.Names.{is_name, is_device_id}
use backuply.Config.Address.{valid_address}
use backuply.Config.Validate.{validate_peers, validate_folder_peers, validate_folders, is_some}

-- No element is among these, nor twice.
abbrev pub NewTo : List Text → List Text → Type 0
NewTo seen [] = Unit
NewTo seen (x ∷ xs) = (contains x seen ≡ false) × NewTo (x ∷ seen) xs

pub record IsPeer (name : Text) (p : Peer) : Type 0 where
  pub pattern : is_name name ≡ true
  pub not_local : name ≢ local
  pub named : p.name ≡ name
  pub address : valid_address p.address false ≡ true
  pub device_id : is_device_id p.device_id ≡ true

abbrev pub device_ids : Dict Text Peer → List Text
device_ids [] = []
device_ids ((name, p) ∷ peers) = p.device_id ∷ device_ids peers

abbrev pub EachPeer : Dict Text Peer → Type 0
EachPeer = All (λ (x : Text × Peer). IsPeer x.0 x.1)

pub validate_peers_iff :
    (peers : Dict Text Peer) (ids : List Text)
    → (validate_peers peers ids ≡ ok tt) ↔ (EachPeer peers × NewTo ids (device_ids peers))
unfolding validate_peers
validate_peers_iff [] ids = (λ _. (tt, tt), λ _. refl)
validate_peers_iff ((name, p) ∷ peers) ids =
    let (sound, complete) = validate_peers_iff peers (p.device_id ∷ ids) in
    (
      λ h.
          let (each, new) = sound (ground arith) in
          (
            (
              record {
                pattern = ground arith;
                not_local = ground (arith, ==_iff name local);
                named = ground (arith, ==_iff p.name name);
                address = ground arith;
                device_id = ground arith;
              },
              each,
            ),
            (ground arith, new),
          ),
      λ k.
          let rest = complete (k.0.1, k.1.1) in
          ground (
            arith,
            rest,
            k.0.0.pattern,
            k.0.0.not_local,
            k.0.0.named,
            k.0.0.address,
            k.0.0.device_id,
            k.1.0,
            ==_iff name local,
            ==_iff p.name name,
          ),
    )

-- The peers of a folder are configured, and none is named twice.
abbrev AllKnown : Dict Text Peer → List Text → Type 0
AllKnown known = All (λ (n : Text). (p : Peer) × (Dict.lookup n known ≡ some p))

validate_folder_peers_iff :
    (known : Dict Text Peer) (names seen : List Text)
    → (validate_folder_peers known names seen ≡ ok tt) ↔ (AllKnown known names × NewTo seen names)
unfolding validate_folder_peers is_some
validate_folder_peers_iff known [] seen = (λ _. (tt, tt), λ _. refl)
validate_folder_peers_iff known (name ∷ names) seen =
    let (sound, complete) = validate_folder_peers_iff known names (name ∷ seen) in
    elim (Option-cases (Dict.lookup name known)) [
      | inl e ↦ (λ h. ground arith, λ k. let (p, f) = k.0.0 in cc)
      | inr (p, e) ↦ (
        λ h. let (each, new) = sound (ground arith) in (((p, e), each), (ground arith, new)),
        λ k. let rest = complete (k.0.1, k.1.1) in rw (e, is_some) (ground (arith, rest, k.1.0)),
      )
    ]

pub record IsFolder (known : Dict Text Peer) (id : Text) (f : Folder) : Type 0 where
  pub pattern : is_name id ≡ true
  pub named : f.id ≡ id
  pub known_peers : AllKnown known f.peers
  pub distinct : NewTo [] f.peers
  pub source : (f.source == local || contains f.source f.peers) ≡ true

abbrev pub EachFolder : Dict Text Peer → Dict Text Folder → Type 0
EachFolder known = All (λ (x : Text × Folder). IsFolder known x.0 x.1)

pub validate_folders_iff :
    (known : Dict Text Peer) (folders : Dict Text Folder)
    → (validate_folders known folders ≡ ok tt) ↔ EachFolder known folders
unfolding validate_folders
validate_folders_iff known [] = (λ _. tt, λ _. refl)
validate_folders_iff known ((id, f) ∷ folders) =
    let (sound, complete) = validate_folders_iff known folders in
    let (peers_sound, peers_complete) = validate_folder_peers_iff known f.peers [] in
    (
      λ h.
          let p = peers_sound (ground arith) in
          (
            record {
              pattern = ground arith;
              named = ground (arith, ==_iff f.id id);
              known_peers = p.0;
              distinct = p.1;
              source = ground arith;
            },
            sound (ground arith),
          ),
      λ k.
          let p = peers_complete (k.0.known_peers, k.0.distinct) in
          let rest = complete k.1 in
          ground (arith, p, rest, k.0.pattern, k.0.named, k.0.source, ==_iff f.id id),
    )
