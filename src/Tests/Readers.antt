-- ===== src/Tests/Readers.antt =====
-- Frames, refreshes, offered pixmaps and process identities: protocol/frame.go, internal/item/ and
-- internal/ownership/ on samples.
use mathlib.Core.List.{append-nil}
use sysc_tray.Prelude.{
  ℕ, ◌≤◌, ◌≡◌, refl, ◌≢◌, List, [], ◌∷◌, ◌++◌, Option, none, some, ok, Text, arith, text_eq, codes,
  All, pos, negsuc,
}
use sysc_tray.Protocol.Types.{max_pixmap_bytes_per_item}
use sysc_tray.Protocol.Pixmaps.{IsPixmap, set_bytes}
use sysc_tray.Protocol.Fields.{key_eq}
use sysc_tray.Protocol.Frames.{
  IsWriter, take_bytes, write_frame, write_frame_ends, write_frame-read, read_frame,
}
use sysc_tray.Item.Limiter.{
  Limiter, previous, new_limiter, Use, reserve, grants, IsSpaced, grants-IsSpaced,
}
use sysc_tray.Item.Pixmaps.{Candidate, decode_pixmaps, decode_pixmaps_valid}
use sysc_tray.Ownership.{Record, System, behind_last}
use sysc_tray.Tests.{mail_key, next_mail_key}

-- A writer that takes one byte at a time.
abbrev write_one : Text → Text → Text × Option ℕ
write_one [] w = (w, some 0)
write_one (c ∷ p) w = (w ++ c ∷ [], some 1)

abbrev all_written : Text → Text
all_written w = w

write_one-IsWriter : IsWriter write_one all_written
unfolding take_bytes
write_one-IsWriter [] w n h = ground (arith, append-nil w)
write_one-IsWriter (c ∷ p) w n h = ground arith

write_frame_ends_example : (write_frame write_one (codes "hi") []).1 ≢ none
write_frame_ends_example = write_frame_ends write_one (codes "hi") []

write_frame-read_example :
    (added : Text) × (all_written (write_frame write_one (codes "hi") []).0 ≡ [] ++ added)
    × ((t : Text) → read_frame (added ++ t) ≡ ok (codes "hi", t))
unfolding write_frame
write_frame-read_example =
    write_frame-read write_one all_written write_one-IsWriter (codes "hi") [] refl

abbrev uses : List Use
uses =
    Use.reserves mail_key 10
    ∷ Use.reserves next_mail_key 20
    ∷ Use.reserves next_mail_key 9000000
    ∷ Use.forgets mail_key
    ∷ []

grants-IsSpaced_example : IsSpaced none (grants uses new_limiter)
grants-IsSpaced_example = grants-IsSpaced uses new_limiter

abbrev busy_limiter : Limiter
busy_limiter = record { per_key = (mail_key, 10) ∷ []; last = some 10 }

refused : (reserve next_mail_key 20 busy_limiter).1 ≢ 0
unfolding reserve key_eq previous text_eq
refused = ground arith

first : (reserve mail_key 10 new_limiter).1 ≡ 0
unfolding reserve key_eq previous text_eq
first = refl

later : (reserve mail_key 40000000 (reserve mail_key 10 new_limiter).0).1 ≡ 0
unfolding reserve key_eq previous text_eq
later = refl

abbrev offered : List (Option Candidate)
offered =
    some (record { width = pos 1; height = pos 1; argb = codes "argb" })
    ∷ none
    ∷ some (record { width = negsuc 0; height = pos 1; argb = [] })
    ∷ []

decode_pixmaps_valid_example :
    All IsPixmap (decode_pixmaps offered max_pixmap_bytes_per_item)
    × (set_bytes (decode_pixmaps offered max_pixmap_bytes_per_item) ≤ max_pixmap_bytes_per_item)
decode_pixmaps_valid_example = decode_pixmaps_valid offered max_pixmap_bytes_per_item

abbrev process : Record
process = record { uid = 1000; pid = 42; start_time = 7 }

-- Twenty fields, of which the last is the start time.
abbrev twenty : Text → List Text
twenty t =
    []
    ∷ []
    ∷ []
    ∷ []
    ∷ []
    ∷ []
    ∷ []
    ∷ []
    ∷ []
    ∷ []
    ∷ []
    ∷ []
    ∷ []
    ∷ []
    ∷ []
    ∷ []
    ∷ []
    ∷ []
    ∷ []
    ∷ codes "7"
    ∷ []

abbrev desktop : System
desktop = record {
  unix_user = λ owner. some 1000;
  unix_process_id = λ owner. some 42;
  read_stat = λ pid. some (codes "42 (mail) S 7");
  fields = twenty;
  parse_uint = λ t. some 7;
  service_uid = 1000;
}

no_bracket : behind_last (codes "S 7") ≡ none
unfolding behind_last
no_bracket = refl
