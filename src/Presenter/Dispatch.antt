-- ===== src/Presenter/Dispatch.antt =====
-- internal/presenter/connection.go and server.go: `dispatch`, `failure`, the `Commands` interface and
-- the loop that reads commands. `decode_envelope` and `decode_command` are `DecodeStrict` at the two
-- types, `json_valid` is `json.Valid`, and `text_of` is the text that an error prints.
pub mod Replies
pub mod Requests
use sysc_tray.Prelude.{
  ℕ, Bool, true, false, not, List, [], ◌∷◌, Option, none, some, leb, ◌&&◌, ◌++◌, if◌then◌else◌,
  Result, ok, err, is_ok, Text, codes, ℤ,
}
use sysc_tray.Protocol.Types.{
  Kind, Envelope, ItemKey, CommandKind, Command, ScrollOrientation, Reply, ProtocolError, ErrorCode,
}
use sysc_tray.Protocol.Errors.{Error}
use sysc_tray.Presenter.Connection.{Connection, reply, fail}
use sysc_tray.Protocol.Messages.{validate_envelope, validate_command}

-- A Go error of a handler: a `*ProtocolError`, or any other with its text.
pub data CallError : Type 0 where
  typed : ProtocolError → CallError
  plain : Text → CallError

abbrev pub Answer : Type 0 → Type 0
Answer H = H × Option CallError

-- The `Commands` interface over a handler with state `H`. The first result of `AboutToShow`, which
-- `dispatch` drops, is left out.
pub record Commands (H : Type 0) : Type 0 where
  pub activate : ItemKey → ℤ → ℤ → H → Answer H
  pub secondary_activate : ItemKey → ℤ → ℤ → H → Answer H
  pub scroll : ItemKey → ℤ → ScrollOrientation → H → Answer H
  pub menu_open : ItemKey → ℕ → ℤ → H → Answer H
  pub menu_select : ItemKey → ℕ → ℤ → ℕ → H → Answer H
  pub about_to_show : ItemKey → ℕ → ℤ → H → Answer H
  pub menu_close : ItemKey → ℕ → ℤ → H → Answer H
  pub terminate : ItemKey → H → Answer H

pub failure : Command → ErrorCode → Text → Reply
failure c code message = record {
  is_success = false;
  item = c.item;
  output = c.output;
  error = some (record { code = code; message = message });
}

abbrev pub no_handler : Text
no_handler = codes "no command handler"

-- The end of `dispatch`: the outcome of the call as a reply.
outcome : Command → Option CallError → Reply
unfolding failure
outcome c none = record { is_success = true; item = c.item; output = c.output; error = none }
outcome c (some (typed e)) = record {
  is_success = false;
  item = c.item;
  output = c.output;
  error = some e;
}
outcome c (some (plain text)) = failure c ErrorCode.unavailable text

module _ {H : Type 0} (text_of : Error → Command → Text) (unknown_command : Text → Text) where
  -- The switch of `dispatch`.
  route : Commands H → CommandKind → Command → H → H × Reply
  unfolding outcome
  route h CommandKind.activate c s = let (s', e) = h.activate c.item c.x c.y s in (s', outcome c e)
  route h CommandKind.secondary_activate c s =
      let (s', e) = h.secondary_activate c.item c.x c.y s in (s', outcome c e)
  route h CommandKind.scroll c s =
      let (s', e) = h.scroll c.item c.delta c.orientation s in (s', outcome c e)
  route h CommandKind.menu_open c s =
      let (s', e) = h.menu_open c.item c.menu_revision c.menu_id s in (s', outcome c e)
  route h CommandKind.menu_select c s =
      let (s', e) = h.menu_select c.item c.menu_revision c.menu_id c.serial s in (s', outcome c e)
  route h CommandKind.about_to_show c s =
      let (s', e) = h.about_to_show c.item c.menu_revision c.menu_id s in (s', outcome c e)
  route h CommandKind.menu_close c s =
      let (s', e) = h.menu_close c.item c.menu_revision c.menu_id s in (s', outcome c e)
  route h CommandKind.terminate c s = let (s', e) = h.terminate c.item s in (s', outcome c e)
  route h (CommandKind.other t) c s = (s, failure c ErrorCode.invalid (unknown_command t))

  -- `none` is a nil handler.
  pub dispatch : (Text → Bool) → Option (Commands H) → Command → H → H × Reply
  unfolding route failure
  dispatch json_valid handler c s = elim (validate_command json_valid c) [
    | err e ↦ (s, failure c ErrorCode.invalid (text_of e c))
    | ok u ↦ elim handler [
      | none ↦ (s, failure c ErrorCode.unavailable no_handler)
      | some h ↦ route h c.kind c s
    ]
  ]

-- `encode_reply` makes the frame of a reply to a request, `cannot` when `json.Marshal` fails.
pub record Served : Type 0 where
  pub request_id : ℕ
  pub command : Command
  pub reply : Reply

pub record Codec : Type 0 where
  pub decode_envelope : Text → Option Envelope
  pub decode_command : Text → Option Command
  pub encode_reply : ℕ → Reply → Option Text
  pub json_valid : Text → Bool
  pub text_of : Error → Command → Text
  pub unknown_command : Text → Text

is_command : Kind → Bool
is_command Kind.command = true
is_command k = false

-- The state of the loop: the connection, the handler's state, what was served, and whether the loop
-- goes on.
pub record Reader (H : Type 0) : Type 0 where
  pub connection : Connection
  pub handler : H
  pub served : List Served
  pub going : Bool

module _ {H : Type 0} (codec : Codec) (commands : Option (Commands H)) where
  -- The round behind the check of the request ID, for a command that was decoded.
  serve : ℕ → Command → Connection → H → Reader H
  serve id command c s =
      let (s', r) =
        dispatch codec.text_of codec.unknown_command codec.json_valid commands command s in
      let (c', sent) = reply (codec.encode_reply id r) c in
      record {
        connection = c';
        handler = s';
        served = record { request_id = id; command = command; reply = r } ∷ [];
        going = is_ok sent;
      }

  stop : Connection → H → Reader H
  stop c s = record { connection = c; handler = s; served = []; going = false }

  accept : Envelope → Connection → H → Reader H
  unfolding serve stop
  accept e c s =
      if leb e.request_id c.last_request_id
      then stop c s
      else (let c' = record c { last_request_id = e.request_id } in
          elim (codec.decode_command e.payload) [
            | none ↦ stop c' s
            | some command ↦ serve e.request_id command c' s
          ])

  pub round : Text → Connection → H → Reader H
  unfolding accept stop is_command
  round frame c s = elim (codec.decode_envelope frame) [
    | none ↦ stop c s
    | some e ↦
        if is_ok (validate_envelope codec.json_valid e) && is_command e.kind
        then accept e c s
        else stop c s
  ]

  -- `readLoop` over the frames that arrive, until one cannot be read.
  pub read_loop : List Text → Connection → H → Reader H
  unfolding round
  read_loop [] c s = record { connection = fail c; handler = s; served = []; going = false }
  read_loop (frame ∷ frames) c s =
      let r = round frame c s in
      let rest = read_loop frames r.connection r.handler in
      if r.going
      then record rest { served = r.served ++ rest.served }
      else record r { connection = fail r.connection }
