-- ===== src/Config/Parse/Named.antt =====
-- The tables that `Parse` fills: each entry bears the name that it stands under.
use backuply.Base.{
  ◌≡◌, ◌≢◌, ◌⊎◌, inl, inr, refl, sym, ◌∙◌, arith, some, [], ◌∷◌, text_eq, ◌==◌, ==_iff, Bool-cases,
  Option-cases, All,
}
use backuply.Base.Dict
use backuply.Base.Dict.{Dict, lookup-insert}
use backuply.Base.Result.{ok}
use backuply.Text.{Text}
use backuply.Config.{Config, Peer, Folder}
use backuply.Config.Library.{Library}
use backuply.Config.Parse.{service, peer, add_section, set_service, set_peer, set_folder}

abbrev pub IsNamedPeer : Text × Peer → Type 0
IsNamedPeer x = x.1.name ≡ x.0

abbrev pub IsNamedFolder : Text × Folder → Type 0
IsNamedFolder x = x.1.id ≡ x.0

pub record IsNamed (c : Config) : Type 0 where
  pub peers : All IsNamedPeer c.peers
  pub folders : All IsNamedFolder c.folders

-- The section that is open has an entry.
abbrev pub IsOpen : Text → Text → Config → Type 0
IsOpen kind name c =
    (kind ≡ [])
    ⊎ (kind ≡ service)
    ⊎ ((kind ≡ peer) × (p : Peer) × (Dict.lookup name c.peers ≡ some p))
    ⊎ ((kind ≢ peer) × (f : Folder) × (Dict.lookup name c.folders ≡ some f))

module _ {V : Type 0} (P : Text × V → Type 0) where
  pub All-insert :
      (k : Text) (v : V) (d : Dict Text V) → P (k, v) → All P d → All P (Dict.insert k v d)
  unfolding Dict.insert
  All-insert k v [] p h = (p, tt)
  All-insert k v ((j, w) ∷ d) p h = elim (Bool-cases (k == j)) [
    | inl same ↦ rw same (p, h.1)
    | inr other ↦ rw other (h.0, All-insert k v d p h.1)
  ]

  pub All-lookup :
      (k : Text) (v : V) (d : Dict Text V) → All P d → Dict.lookup k d ≡ some v → P (k, v)
  unfolding Dict.lookup
  All-lookup k v [] h e = cc
  All-lookup k v ((j, w) ∷ d) h e = elim (Bool-cases (k == j)) [
    | inl same ↦ let i = (==_iff k j).0 same in let u : w ≡ v = ground arith in rw (i, sym u) h.0
    | inr other ↦ All-lookup k v d h.1 (rw other at e)
  ]

pub lookup-insert_same :
    {V : Type 0} (k : Text) (v : V) (d : Dict Text V) → Dict.lookup k (Dict.insert k v d) ≡ some v
lookup-insert_same k v d = let same = (==_iff k k).1 refl in lookup-insert k k v d ∙ rw same refl

pub add_section-IsNamed :
    (kind name : Text) (c : Config) → IsNamed c → IsNamed (add_section kind name c)
unfolding add_section
add_section-IsNamed kind name c h = elim (Bool-cases (kind == peer)) [
  | inl p ↦
      rw p
        (record { peers = All-insert IsNamedPeer name _ c.peers refl h.peers; folders = h.folders })
  | inr f ↦ rw f (record {
    peers = h.peers;
    folders = All-insert IsNamedFolder name _ c.folders refl h.folders;
  })
]

pub add_section-IsOpen :
    (kind name : Text) (c : Config) → IsOpen kind name (add_section kind name c)
unfolding add_section
add_section-IsOpen kind name c = elim (Bool-cases (kind == peer)) [
  | inl p ↦ rw p (inr (inr (inl ((==_iff kind peer).0 p, _, lookup-insert_same name _ c.peers))))
  | inr f ↦ rw f (
      inr (inr (inr (ground (arith, f, ==_iff kind peer), _, lookup-insert_same name _ c.folders))))
]

pub set_peer-name : (key value : Text) (p q : Peer) → set_peer key value p ≡ ok q → q.name ≡ p.name
unfolding set_peer
set_peer-name key value p q h = ground arith

pub set_folder-id : (key value : Text) (f g : Folder) → set_folder key value f ≡ ok g → g.id ≡ f.id
unfolding set_folder
set_folder-id key value f g h = ground arith

pub set_service-tables :
    (lib : Library) (key value : Text) (c d : Config)
    → set_service lib key value c ≡ ok d
    → (d.peers ≡ c.peers) × (d.folders ≡ c.folders)
unfolding set_service
set_service-tables lib key value c d h = (
  ground (arith, Option-cases (lib.parse_duration value)),
  ground (arith, Option-cases (lib.parse_duration value)),
)
