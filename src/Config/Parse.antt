-- ===== src/Config/Parse.antt =====
-- `Parse` of internal/config/config.go. `kind` is empty in front of the first section.
pub mod Named
pub mod Invariant
use mathlib.Core.List.{map}
use backuply.Base.{
  ℕ, ◌≡◌, refl, Bool, true, false, ◌&&◌, ◌||◌, not, Option, none, some, List, [], ◌∷◌, ◌++◌, leb,
  length, text_eq, ◌==◌, contains, if◌then◌else◌, ◌=ℕ◌,
}
use backuply.Base.Dict
use backuply.Base.Int.{ℤ}
use backuply.Base.Result.{Result, ok, err, ◌>>=◌, ◌>>◌, guard}
use backuply.Text.{Text, codes, has_prefix}
use backuply.Text.Split.{split}
use backuply.Text.Cut.{cut, unsnoc}
use backuply.Text.Trim.{trim_space}
use backuply.Config.{Config, Peer, Folder, default_config, no_peer, no_folder}
use backuply.Config.Error.{
  Error, line_too_long, malformed_section, duplicate_section, unknown_section, expected_setting,
  duplicate_key, invalid_quoted, invalid_interval, unknown_key,
}
use backuply.Config.Library.{Library}
use backuply.Config.Names.{match_section}

abbrev pub service : Text
service = codes "service"

abbrev pub peer : Text
peer = codes "peer"

abbrev pub folder : Text
folder = codes "folder"

-- The variables of the loop
pub record State : Type 0 where
  pub config : Config
  pub sections : List Text
  pub keys : List Text
  pub kind : Text
  pub name : Text

abbrev pub start : State
start = record { config = default_config; sections = []; keys = []; kind = []; name = [] }

-- The header between the brackets
header_of : Text → Option Text
header_of [] = none
header_of (_ ∷ rest) = elim (unsnoc rest) [
  | none ↦ none
  | some (inside, last) ↦ if last =ℕ b']' then some (trim_space inside) else none
]

-- A new section for a peer or a folder takes the place of the table's entry.
unfoldable pub add_section : Text → Text → Config → Config
add_section kind name c =
    if kind == peer
    then record c { peers = Dict.insert name (record no_peer { name = name }) c.peers }
    else record c { folders = Dict.insert name (record no_folder { id = name }) c.folders }

unfoldable pub named_section : State → Option (Text × Text) → Result Error State
unfolding add_section
named_section st none = err unknown_section
named_section st (some (kind, name)) =
    ok (record st { kind = kind; name = name; config = add_section kind name st.config })

unfoldable pub open_section : State → Option Text → Result Error State
unfolding named_section
open_section st none = err malformed_section
open_section st (some header) = do
  guard (not (contains header st.sections)) duplicate_section
  let st' : State = record st { sections = header ∷ st.sections; kind = service; name = [] }
  if header == service then ok st' else named_section st' (match_section header)

-- A value in quotation marks is a Go string literal.
unfoldable pub unquoted : Library → Text → Result Error Text
unquoted lib value =
    if has_prefix value (codes "\"")
    then elim (lib.unquote value) [ none ↦ err invalid_quoted | some v ↦ ok v ]
    else ok value

unfoldable pub set_service : Library → Text → Text → Config → Result Error Config
set_service lib key value c =
    if key == codes "listen"
    then ok (record c { listen = value })
    else if key == codes "state_dir"
    then ok (record c { state_dir = value })
    else if key == codes "scan_interval"
    then elim (lib.parse_duration value) [
      | none ↦ err invalid_interval
      | some d ↦ ok (record c { scan_interval = d })
    ]
    else err unknown_key

unfoldable pub set_peer : Text → Text → Peer → Result Error Peer
set_peer key value p =
    if key == codes "address"
    then ok (record p { address = value })
    else if key == codes "device_id"
    then ok (record p { device_id = value })
    else err unknown_key

unfoldable pub set_folder : Text → Text → Folder → Result Error Folder
set_folder key value f =
    if key == codes "path"
    then ok (record f { path = value })
    else if key == codes "source"
    then ok (record f { source = value })
    else if key == codes "peers"
    then ok (
        if value == []
        then f
        else record f { peers = f.peers ++ map trim_space (split b',' value) })
    else err unknown_key

-- What a map gives for a key that it may lack
unfoldable pub peer_or_zero : Option Peer → Peer
peer_or_zero none = no_peer
peer_or_zero (some p) = p

unfoldable pub folder_or_zero : Option Folder → Folder
folder_or_zero none = no_folder
folder_or_zero (some f) = f

-- The switch on `kind`
unfoldable pub set_key : Library → Text → Text → Text → Text → Config → Result Error Config
unfolding set_service set_peer set_folder peer_or_zero folder_or_zero
set_key lib kind name key value c =
    if kind == service
    then set_service lib key value c
    else if kind == peer
    then (do
      p ← set_peer key value (peer_or_zero (Dict.lookup name c.peers))
      ok (record c { peers = Dict.insert name p c.peers }))
    else (do
      f ← set_folder key value (folder_or_zero (Dict.lookup name c.folders))
      ok (record c { folders = Dict.insert name f c.folders }))

-- A line with `key = value`
unfoldable pub setting : Library → State → Option (Text × Text) → Result Error State
unfolding unquoted set_key
setting lib st none = err expected_setting
setting lib st (some (left, right)) = do
  let key = trim_space left
  guard (not (st.kind == []) && not (key == [])) expected_setting
  let qualified = st.kind ++ b'/' ∷ st.name ++ b'/' ∷ key
  guard (not (contains qualified st.keys)) duplicate_key
  value ← unquoted lib (trim_space right)
  config ← set_key lib st.kind st.name key value st.config
  ok (record st { config = config; keys = qualified ∷ st.keys })

-- One line, without the space around it
unfoldable pub parse_line : Library → State → Text → Result Error State
unfolding header_of open_section setting
parse_line lib st v =
    if v == [] || has_prefix v (codes "#") || has_prefix v (codes ";")
    then ok st
    else if has_prefix v (codes "[")
    then open_section st (header_of v)
    else setting lib st (cut b'=' v)

-- bufio.ScanLines: the lines, of which an empty one at the end is none. The carriage return at the
-- end of one is among the space that is trimmed.
unfoldable pub lines_of : List Text → List Text
lines_of [] = []
lines_of ([] ∷ []) = []
lines_of ((c ∷ cs) ∷ []) = (c ∷ cs) ∷ []
lines_of (l ∷ next ∷ ls) = l ∷ lines_of (next ∷ ls)

-- A line of 1 MiB does not fit the scanner's buffer.
unfoldable pub parse_lines : Library → State → List Text → Result Error State
parse_lines lib st [] = ok st
parse_lines lib st (l ∷ ls) = do
  guard (leb (length l) 1048575) line_too_long
  st' ← parse_line lib st (trim_space l)
  parse_lines lib st' ls

-- `Parse`, up to the checks of `Validate`
unfoldable pub read_config : Library → Text → Result Error Config
read_config lib text = do st ← parse_lines lib start (lines_of (split b'\n' text)); ok st.config
