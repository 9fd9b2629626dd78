-- ===== src/Tests/Shell.antt =====
-- A presenter's connection and the dispatch of its commands, internal/presenter/.
use sysc_tray.Prelude.{
  ◌⊎◌, ℕ, ◌+◌, ◌≡◌, refl, ◌↔◌, Bool, true, false, List, [], ◌∷◌, ◌++◌, Option, none, some, text_eq,
  contains, ok, Text, arith, length, codes,
}
use sysc_tray.Protocol.Types.{Envelope, Kind, Command, Reply}
use sysc_tray.Protocol.Errors.{Error}
use sysc_tray.Utf8.{valid_string}
use sysc_tray.Protocol.Messages.{
  validate_envelope, validate_hello, validate_reply, validate_next_sequence,
}
use sysc_tray.Protocol.Messages.Accepted.{IsOutcome, IsReplyKey}
use sysc_tray.Presenter.Connection.{Connection, Outbound, new_connection, start, send}
use sysc_tray.Presenter.Connection.Budget.{IsAccounted}
use sysc_tray.Presenter.Connection.Order.{Chain, Event, run, step}
use sysc_tray.Presenter.Connection.Session.{handshake, session_order, session-IsAccounted}
use sysc_tray.Presenter.Dispatch.{Commands, Codec, Answer, dispatch, read_loop}
use sysc_tray.Presenter.Dispatch.Replies.{dispatch-reply}
use sysc_tray.Presenter.Dispatch.Requests.{Rising, read_loop-Rising}
use sysc_tray.Protocol.Fields.{validate_text}
use sysc_tray.Presenter.Handshake.{Decoders, admit, IsGreeting, admit-IsGreeting}
use sysc_tray.Protocol.Items.{IconOrder}
use sysc_tray.State.Owner.{snapshot_locked}
use sysc_tray.Presenter.Server.{Server, passes, enter, enter_lem}
use sysc_tray.Tests.{shell_hello, scroll_command}

abbrev greeted : Connection
greeted = (start 7 (codes "hello" ∷ codes "snapshot" ∷ []) new_connection).0

-- One delta and one reply are queued, and the writer takes the handshake.
abbrev traffic : List Event
traffic =
    Event.sends (some (codes "delta")) 8
    ∷ Event.replies (some (codes "reply"))
    ∷ Event.takes
    ∷ Event.writes true
    ∷ []

session_order_example :
    (rest : List Outbound) × ((run traffic greeted).1 ++ (run traffic greeted).0.queue
      ≡ handshake (codes "hello") ∷ handshake (codes "snapshot") ∷ rest)
    × Chain 7 rest (run traffic greeted).0.last_sequence
unfolding start
session_order_example =
    session_order 7 (codes "hello") (codes "snapshot") new_connection greeted traffic refl refl
      (ground arith)

abbrev early : List Event
early = Event.sends (some (codes "delta")) 8 ∷ []

abbrev begun : Connection
begun = (start 7 (codes "hello" ∷ []) (run early new_connection).0).0

session-IsAccounted_example : IsAccounted (run traffic begun).0
unfolding start run step send validate_next_sequence
session-IsAccounted_example = session-IsAccounted early traffic 7 (codes "hello" ∷ []) begun refl

abbrev live : Connection
live = record new_connection { started = true; last_sequence = 7 }

abbrev text_of : Error → Command → Text
text_of e c = codes "invalid"

abbrev unknown_command : Text → Text
unknown_command t = t

abbrev no_json : Text → Bool
no_json t = false

-- The handler counts its calls.
abbrev count : ℕ → Answer ℕ
count n = (n + 1, none)

abbrev counter : Commands ℕ
counter = record {
  activate = λ k x y n. count n;
  secondary_activate = λ k x y n. count n;
  scroll = λ k d o n. count n;
  menu_open = λ k r m n. count n;
  menu_select = λ k r m s n. count n;
  about_to_show = λ k r m n. count n;
  menu_close = λ k r m n. count n;
  terminate = λ k n. count n;
}

abbrev answer : Command → ℕ × Reply
answer c = dispatch text_of unknown_command no_json (some counter) c 0

dispatch-reply_example :
    ((answer scroll_command).1.item ≡ scroll_command.item)
    × ((answer scroll_command).1.output ≡ scroll_command.output)
    × ((validate_reply (answer scroll_command).1 ≡ ok tt) ↔ (
        IsOutcome (answer scroll_command).1.is_success (answer scroll_command).1.error
        × IsReplyKey scroll_command.item))
dispatch-reply_example =
    dispatch-reply text_of unknown_command no_json (some counter) scroll_command 0

-- Frames that are one request each, numbered by their length.
abbrev request : Text → Option Envelope
request frame =
    some (record {
      kind = Kind.command;
      request_id = length frame;
      sequence = 0;
      payload = codes "{}";
    })

abbrev codec : Codec
codec = record {
  decode_envelope = request;
  decode_command = λ t. some scroll_command;
  encode_reply = λ id r. some (codes "reply");
  json_valid = λ t. true;
  text_of = text_of;
  unknown_command = unknown_command;
}

abbrev frames : List Text
frames = codes "a" ∷ codes "abc" ∷ codes "ab" ∷ []

read_loop-Rising_example : Rising 0 (read_loop codec (some counter) frames live 0).served
read_loop-Rising_example = read_loop-Rising codec (some counter) frames live 0

abbrev hello_envelope : Envelope
hello_envelope = record { kind = Kind.hello; request_id = 0; sequence = 0; payload = codes "{}" }

abbrev decoders : Decoders
decoders = record {
  decode_envelope = λ t. some hello_envelope;
  decode_hello = λ t. some shell_hello;
  json_valid = λ t. true;
}

abbrev same_user : Option ℕ
same_user = some 1000

shell_hello-admitted : admit decoders 1000 same_user (some (codes "{}")) ≡ some shell_hello
unfolding admit validate_envelope validate_hello text_eq validate_text valid_string contains
shell_hello-admitted = refl

admit-IsGreeting_example : (same_user ≡ some 1000) × IsGreeting shell_hello
admit-IsGreeting_example =
    admit-IsGreeting decoders 1000 same_user (some (codes "{}")) shell_hello shell_hello-admitted

-- A server of presenters that serves connection 7.
abbrev serving : Server
serving = record {
  owner = record { stopped = false; items = []; order = []; sequence = 5; sink = some 7 };
  current = some 7;
  next_generation = 1;
  failed = [];
}

abbrev icon_order : IconOrder
icon_order = IconOrder.main_attention_overlay

enter_lem_example :
    let s' = enter icon_order (λ t. false) 8 serving in
    let p = passes icon_order (λ t. false) (snapshot_locked serving.owner) in
    ((p ≡ true) × (s'.current ≡ some 8) × (s'.owner.sink ≡ some 8) × (s'.failed ≡ 7 ∷ []))
    ⊎ ((p ≡ false) × (s'.current ≡ some 7) × (s'.owner.sink ≡ none) × (s'.failed ≡ 8 ∷ []))
enter_lem_example = enter_lem icon_order (λ t. false) 8 7 serving refl refl (λ e. ground arith)
