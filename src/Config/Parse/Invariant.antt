-- ===== src/Config/Parse/Invariant.antt =====
-- What every line keeps true of the tables that `Parse` fills.
use backuply.Base.{
  ◌≡◌, ◌≢◌, inl, inr, refl, ◌∙◌, arith, false, ◌&&◌, ◌||◌, not, Option, none, some, List, [], ◌∷◌,
  ◌++◌, leb, length, text_eq, ◌==◌, ==_iff, contains, Bool-cases, Option-cases,
}
use mathlib.Core.Path.{subst}
use backuply.Base.Dict
use backuply.Base.Dict.{Dict}
use backuply.Base.Result.{ok, ok-injective, bind-eq-ok, ◌>>=◌, guard}
use backuply.Text.{Text, codes, has_prefix}
use backuply.Text.Split.{split}
use backuply.Text.Cut.{cut}
use backuply.Text.Trim.{trim_space}
use backuply.Config.{Config, Peer, Folder}
use backuply.Config.Library.{Library}
use backuply.Config.Names.{match_section}
use backuply.Config.Parse.{
  State, start, service, peer, header_of, named_section, open_section, unquoted, set_service,
  set_peer, set_folder, set_key, peer_or_zero, folder_or_zero, setting, parse_line, lines_of,
  parse_lines, read_config,
}
use backuply.Config.Parse.Named.{
  IsNamedPeer, IsNamedFolder, IsNamed, IsOpen, All-insert, All-lookup, lookup-insert_same,
  add_section-IsNamed, add_section-IsOpen, set_peer-name, set_folder-id, set_service-tables,
}

record IsSound (st : State) : Type 0 where
  named : IsNamed st.config
  is_open : IsOpen st.kind st.name st.config

abbrev Kept : Text → Text → Config → Type 0
Kept kind name c = IsNamed c × IsOpen kind name c

in_service :
    (lib : Library) (kind name key value : Text) (c d : Config)
    → kind ≡ service
    → IsNamed c
    → set_service lib key value c ≡ ok d
    → Kept kind name d
in_service lib kind name key value c d k h e =
    let (p, f) = set_service-tables lib key value c d e in
    (record { peers = rw p h.peers; folders = rw f h.folders }, inr (inl k))

in_peer :
    (kind name key value : Text) (c d : Config) (p : Peer)
    → kind ≡ peer
    → IsNamed c
    → Dict.lookup name c.peers ≡ some p
    → (do
      q ← set_peer key value (peer_or_zero (Dict.lookup name c.peers))
      ok (record c { peers = Dict.insert name q c.peers }))
      ≡ ok d
    → Kept kind name d
unfolding peer_or_zero
in_peer kind name key value c d p k h found e =
    let (q, done, same) =
      bind-eq-ok (set_peer key value (peer_or_zero (Dict.lookup name c.peers))) _ e in
    let old = All-lookup IsNamedPeer name p c.peers h.peers found in
    let new = set_peer-name key value _ q done ∙ rw found old in
    subst (Kept kind name) (ok-injective same) (
      record { peers = All-insert IsNamedPeer name q c.peers new h.peers; folders = h.folders },
      inr (inr (inl (k, q, lookup-insert_same name q c.peers))),
    )

in_folder :
    (kind name key value : Text) (c d : Config) (f : Folder)
    → kind ≢ peer
    → IsNamed c
    → Dict.lookup name c.folders ≡ some f
    → (do
      g ← set_folder key value (folder_or_zero (Dict.lookup name c.folders))
      ok (record c { folders = Dict.insert name g c.folders }))
      ≡ ok d
    → Kept kind name d
unfolding folder_or_zero
in_folder kind name key value c d f k h found e =
    let (g, done, same) =
      bind-eq-ok (set_folder key value (folder_or_zero (Dict.lookup name c.folders))) _ e in
    let old = All-lookup IsNamedFolder name f c.folders h.folders found in
    let new = set_folder-id key value _ g done ∙ rw found old in
    subst (Kept kind name) (ok-injective same) (
      record { folders = All-insert IsNamedFolder name g c.folders new h.folders; peers = h.peers },
      inr (inr (inr (k, g, lookup-insert_same name g c.folders))),
    )

set_key-Kept :
    (lib : Library) (kind name key value : Text) (c d : Config)
    → kind ≢ []
    → Kept kind name c
    → set_key lib kind name key value c ≡ ok d
    → Kept kind name d
unfolding set_key
set_key-Kept lib kind name key value c d n (h, inl k) e = absurd (n k)
set_key-Kept lib kind name key value c d n (h, inr (inl k)) e =
    in_service lib kind name key value c d k h (rw ((==_iff kind service).1 k) at e)
set_key-Kept lib kind name key value c d n (h, inr (inr (inl (k, p, found)))) e =
    let other : (kind == service) ≡ false = ground (arith, k) in
    in_peer kind name key value c d p k h found (rw (other, (==_iff kind peer).1 k) at e)
set_key-Kept lib kind name key value c d n (h, inr (inr (inr (k, f, found)))) e =
    elim (Bool-cases (kind == service)) [
      | inl s ↦ in_service lib kind name key value c d ((==_iff kind service).0 s) h (rw s at e)
      | inr s ↦
          let other : (kind == peer) ≡ false = ground (arith, k, ==_iff kind peer) in
          in_folder kind name key value c d f k h found (rw (s, other) at e)
    ]

open_section-IsSound :
    (st st' : State) (header : Option Text)
    → IsSound st
    → open_section st header ≡ ok st'
    → IsSound st'
unfolding open_section named_section
open_section-IsSound st st' none h e = cc
open_section-IsSound st st' (some header) h e =
    let (_, fresh, k) = bind-eq-ok (guard (not (contains header st.sections)) _) _ e in
    elim (Bool-cases (header == service)) [
      | inl s ↦
          subst IsSound (ok-injective (rw s at k))
            (record { named = h.named; is_open = inr (inl refl) })
      | inr s ↦ elim (Option-cases (match_section header)) [
        | inl missing ↦ absurd (ground (arith, rw (s, missing) at k))
        | inr ((kind, name), found) ↦ subst IsSound (ok-injective (rw (s, found) at k)) (record {
          named = add_section-IsNamed kind name st.config h.named;
          is_open = add_section-IsOpen kind name st.config;
        })
      ]
    ]

setting-IsSound :
    (lib : Library) (st st' : State) (parts : Option (Text × Text))
    → IsSound st
    → setting lib st parts ≡ ok st'
    → IsSound st'
unfolding setting
setting-IsSound lib st st' none h e = cc
setting-IsSound lib st st' (some (left, right)) h e =
    let (_, shape, e1) =
      bind-eq-ok (guard (not (st.kind == []) && not (trim_space left == [])) _) _ e in
    let qualified = st.kind ++ b'/' ∷ st.name ++ b'/' ∷ trim_space left in
    let (_, _, e2) = bind-eq-ok (guard (not (contains qualified st.keys)) _) _ e1 in
    let (value, _, e3) = bind-eq-ok (unquoted lib (trim_space right)) _ e2 in
    let (config, done, e4) =
      bind-eq-ok (set_key lib st.kind st.name (trim_space left) value st.config) _ e3 in
    let filled : st.kind ≢ [] = λ empty. ground (arith, shape, (==_iff st.kind []).1 empty) in
    let (named, current) =
      set_key-Kept lib st.kind st.name _ value st.config config filled (h.named, h.is_open) done in
    subst IsSound (ok-injective e4) (record { named = named; is_open = current })

parse_line-IsSound :
    (lib : Library) (st st' : State) (v : Text)
    → IsSound st
    → parse_line lib st v ≡ ok st'
    → IsSound st'
unfolding parse_line
parse_line-IsSound lib st st' v h e =
    elim (Bool-cases (v == [] || has_prefix v (codes "#") || has_prefix v (codes ";"))) [
      | inl skip ↦ subst IsSound (ok-injective (rw skip at e)) h
      | inr other ↦
          let e1 = rw other at e in
          elim (Bool-cases (has_prefix v (codes "["))) [
            | inl section ↦ open_section-IsSound st st' (header_of v) h (rw section at e1)
            | inr key ↦ setting-IsSound lib st st' (cut b'=' v) h (rw key at e1)
          ]
    ]

parse_lines-IsSound :
    (lib : Library) (st st' : State) (lines : List Text)
    → IsSound st
    → parse_lines lib st lines ≡ ok st'
    → IsSound st'
unfolding parse_lines
parse_lines-IsSound lib st st' [] h e = subst IsSound (ok-injective e) h
parse_lines-IsSound lib st st' (l ∷ ls) h e =
    let (_, _, e1) = bind-eq-ok (guard (leb (length l) 1048575) _) _ e in
    let (next, done, e2) = bind-eq-ok (parse_line lib st (trim_space l)) _ e1 in
    parse_lines-IsSound lib next st' ls (parse_line-IsSound lib st next _ h done) e2

-- Whatever the text, and however it names sections: in the configuration that `Parse` reads, each peer
-- has the name and each folder the ID under which the tables have it.
pub read_config-IsNamed :
    (lib : Library) (text : Text) (c : Config) → read_config lib text ≡ ok c → IsNamed c
unfolding read_config
read_config-IsNamed lib text c e =
    let (st, done, e1) = bind-eq-ok (parse_lines lib start (lines_of (split b'\n' text))) _ e in
    let sound =
      parse_lines-IsSound lib start st _
        (record { named = record { peers = tt; folders = tt }; is_open = inl refl }) done in
    subst IsNamed (ok-injective e1) sound.named
