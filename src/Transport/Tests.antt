-- ===== src/Transport/Tests.antt =====
-- A client and a server with one folder and one file, and what the theorems on internal/transport say
-- of them.
use backuply.Base.{
  ◌^◌, ◌≤◌, ◌<◌, ◌≡◌, ◌≢◌, refl, arith, Option, some, [], ◌∷◌, ◌++◌, length, text_eq, ◌==◌,
  if◌then◌else◌,
}
use backuply.Base.Int.{pos}
use backuply.Base.Result.{ok}
use backuply.Text.{Text, codes}
use backuply.Model.{Block, Entry, block_size, file}
use backuply.Transport.Conn.{◌>>=◌, step, read_full, write_all}
use backuply.Transport.Frame.{put_uint32, uint32, read_frame, write_frame}
use backuply.Transport.Frame.Exact.{conn, read_frame_ok, write_frame-read_frame}
use backuply.Transport.Message.{Message, message, Format, read, send, write}
use backuply.Transport.Server.{Backend, entry_message, serve_request}
use backuply.Transport.Client.{
  list, read_block, list_message, block_message, receive, on_response, response, block_bytes,
}
use backuply.Transport.Client.Sound.{read_block_sound, list_bound}
use backuply.Transport.Exchange.{IsSendable, metadata}
use backuply.Transport.Exchange.Whole.{list_exchange}
use backuply.Transport.Exchange.Fetch.{IsRequest, block_exchange}

abbrev photos : Text
photos = codes "photos"

abbrev name : Text
name = codes "a.txt"

abbrev zeros : Text
zeros = codes "0000000000000000000000000000000000000000000000000000000000000000"

abbrev block : Block
block = record { offset = pos 0; size = pos 3; hash = zeros }

abbrev entry : Entry
entry = record {
  path = name;
  kind = file;
  size = pos 3;
  mode = 0o644;
  hash = zeros;
  blocks = block ∷ [];
}

abbrev ask_list : Message
ask_list = list_message photos

abbrev ask_block : Message
ask_block = block_message photos name zeros block

-- A form that tells these messages apart
abbrev marshal : Message → Text
marshal m = m.kind ++ m.folder

unfoldable unmarshal : Text → Option Message
unmarshal t =
    if t == marshal ask_list
    then some ask_list
    else if t == marshal ask_block
    then some ask_block
    else if t == codes "entry"
    then some (entry_message entry)
    else some (message t)

abbrev format : Format
format = record { marshal = marshal; unmarshal = unmarshal; hash_bytes = λ b. zeros }

abbrev backend : Backend
backend = record {
  list = λ peer folder. ok (entry ∷ []);
  read_block = λ peer folder path hash b. ok (codes "abc");
}

ask_list-IsSendable : IsSendable format ask_list
unfolding unmarshal text_eq
ask_list-IsSendable = record { decoded = refl; some_bytes = omega arith; short = omega arith }

ask_block-IsSendable : IsSendable format ask_block
unfolding unmarshal text_eq
ask_block-IsSendable = record { decoded = refl; some_bytes = omega arith; short = omega arith }

entry-IsSendable : IsSendable format (entry_message entry)
unfolding unmarshal text_eq
entry-IsSendable = record { decoded = refl; some_bytes = omega arith; short = omega arith }

end-IsSendable : IsSendable format (message (codes "end"))
unfolding unmarshal text_eq
end-IsSendable = record { decoded = refl; some_bytes = omega arith; short = omega arith }

block-IsSendable : IsSendable format (message (codes "block"))
unfolding unmarshal text_eq
block-IsSendable = record { decoded = refl; some_bytes = omega arith; short = omega arith }

named : photos ≢ []
named = ground arith

short : length photos ≤ 256
short = omega arith

few : length (entry ∷ []) ≤ 100000
few = omega arith

fits : metadata format (entry ∷ []) ≤ 67108864
unfolding metadata
fits = omega arith

request : IsRequest photos name zeros block
request = record {
  size = 3;
  sized = refl;
  some_bytes = omega arith;
  bounded = omega arith;
  offset = 0;
  placed = refl;
  entry_hash = refl;
  block_hash = refl;
  named = named;
  short_folder = omega arith;
  short_path = omega arith;
}

-- The bytes of a reply with a block, and of one with an empty list
abbrev block_reply : Text
block_reply = 0 ∷ 0 ∷ 0 ∷ 5 ∷ codes "block" ++ (0 ∷ 0 ∷ 0 ∷ 3 ∷ codes "abc")

abbrev list_reply : Text
list_reply = 0 ∷ 0 ∷ 0 ∷ 3 ∷ codes "end"

abbrev sent_block : Text
sent_block = 0 ∷ 0 ∷ 0 ∷ 11 ∷ codes "blockphotos"

abbrev sent_list : Text
sent_list = 0 ∷ 0 ∷ 0 ∷ 10 ∷ codes "listphotos"

gets_block :
    read_block format photos name zeros block (conn block_reply [])
    ≡ (ok (codes "abc"), conn [] sent_block)
unfolding read_block read send write read_frame write_frame read_full write_all step put_uint32
    uint32 unmarshal text_eq block_bytes ◌>>=◌
gets_block = refl

gets_list : list format photos (conn list_reply []) ≡ (ok [], conn [] sent_list)
unfolding list receive on_response response read send write read_frame write_frame read_full
    write_all step put_uint32 uint32 unmarshal text_eq ◌>>=◌
gets_list = refl

gets_frame :
    read_frame 8 (conn (0 ∷ 0 ∷ 0 ∷ 3 ∷ codes "abcde") [])
    ≡ (ok (codes "abc"), conn (codes "de") [])
unfolding read_frame read_full step uint32 ◌>>=◌
gets_frame = refl

positive : 0 < length (codes "abc")
positive = omega arith

small_enough : length (codes "abc") ≤ 8
small_enough = omega arith

small_limit : 8 < 2 ^ 32
small_limit = omega arith

list_exchange_example :
    (request : Text) × (reply : Text) × (list format photos (conn (reply ++ []) [])
      ≡ (ok (entry ∷ []), conn [] request))
    × (serve_request format backend name (conn (request ++ []) []) ≡ (ok tt, conn [] reply))
list_exchange_example =
    list_exchange format backend name photos [] [] (entry ∷ []) named short refl few
      (entry-IsSendable, tt) end-IsSendable ask_list-IsSendable fits

block_exchange_example :
    (request : Text) × (reply : Text) × (read_block format photos name zeros block
        (conn (reply ++ []) [])
      ≡ (ok (codes "abc"), conn [] request))
    × (serve_request format backend name (conn (request ++ []) []) ≡ (ok tt, conn [] reply))
block_exchange_example =
    block_exchange format backend name photos name zeros block [] [] (codes "abc") request refl refl
      refl ask_block-IsSendable block-IsSendable

read_block_sound_example :
    (pos 3 ≡ pos (length (codes "abc"))) × (length (codes "abc") ≤ block_size) × (zeros ≡ zeros)
read_block_sound_example =
    read_block_sound format photos name zeros block (conn block_reply []) gets_block

list_bound_example : length {A = Entry} [] ≤ 100000
list_bound_example = list_bound format photos (conn list_reply []) gets_list

read_frame_ok_example :
    (header : Text) × (0 ∷ 0 ∷ 0 ∷ 3 ∷ codes "abcde" ≡ header ++ (codes "abc" ++ codes "de"))
    × (length header ≡ 4)
    × (uint32 header ≡ length (codes "abc"))
    × (0 < length (codes "abc"))
    × (length (codes "abc") ≤ 8)
    × (conn (codes "de") [] ≡ conn (codes "de") [])
read_frame_ok_example =
    read_frame_ok 8 (0 ∷ 0 ∷ 0 ∷ 3 ∷ codes "abcde") [] (codes "abc") (conn (codes "de") [])
      gets_frame

write_frame-read_frame_example :
    (out : Text) × (write_frame (codes "abc") 8 (conn [] []) ≡ (ok tt, conn [] out))
    × (read_frame 8 (conn (out ++ codes "de") []) ≡ (ok (codes "abc"), conn (codes "de") []))
write_frame-read_frame_example =
    write_frame-read_frame 8 (codes "abc") [] (codes "de") [] positive small_enough small_limit
