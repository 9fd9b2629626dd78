-- ===== src/Presenter/Connection.antt =====
-- internal/presenter/connection.go: one presenter's socket, as the sink of the owner and as the
-- queue of its writer. A channel is a list with its head in front. The lock makes each operation
-- one step; the writer's receive, write and release are steps of their own, with `writing` for the
-- message that it has taken and not released. The counters are ints; Connection/Budget.antt
-- compares them with the messages that are held.
pub mod Budget
pub mod Order
pub mod Session
use sysc_tray.Prelude.{
  ℕ, suc, ◌+◌, ◌-◌, Bool, true, false, not, ◌&&◌, ◌||◌, List, [], ◌∷◌, ◌++◌, Option, none, some,
  ltb, leb, ◌==◌, if◌then◌else◌, Result, ok, err, is_ok, length, Text,
}
use sysc_tray.Protocol.Types.{max_presenter_queue_messages, max_presenter_decoded_bytes}
use sysc_tray.Protocol.Errors.{Check}
use sysc_tray.Protocol.Messages.{validate_next_sequence}

pub record Outbound : Type 0 where
  pub bytes : Text
  pub sequence : ℕ

pub record Connection : Type 0 where
  pub queue : List Outbound
  pub pending : List Outbound
  pub writing : Option Outbound
  pub queued_messages : ℕ
  pub queued_bytes : ℕ
  pub last_sequence : ℕ
  pub last_request_id : ℕ
  pub started : Bool
  pub failed : Bool

-- `newConnection`
abbrev pub new_connection : Connection
new_connection = record {
  queue = [];
  pending = [];
  writing = none;
  queued_messages = 0;
  queued_bytes = 0;
  last_sequence = 0;
  last_request_id = 0;
  started = false;
  failed = false;
}

-- Why a message was not taken. `blocked` stands for a send on a full channel that would wait while
-- the lock is held.
pub data Refusal : Type 0 where
  not_encoded connection_failed queue_overflow out_of_order cannot_queue_reply blocked : Refusal

abbrev pub Outcome : Type 0
Outcome = Result Refusal (Unit {0})

-- `followsLocked`
unfoldable pub follows : Connection → ℕ → Check
follows c sequence =
    if sequence == 0 then ok tt else validate_next_sequence c.last_sequence sequence

unfoldable pub reserve : Connection → Outbound → Option Connection
reserve c m =
    if ltb max_presenter_queue_messages (c.queued_messages + 1)
      || ltb max_presenter_decoded_bytes (c.queued_bytes + length m.bytes)
    then none
    else some (record c {
      queued_messages = c.queued_messages + 1;
      queued_bytes = c.queued_bytes + length m.bytes;
    })

unfoldable pub release : Connection → Outbound → Connection
release c m = record c {
  queued_messages = c.queued_messages - 1;
  queued_bytes = c.queued_bytes - length m.bytes;
}

unfoldable pub fail : Connection → Connection
fail c = record c { failed = true }

-- `case c.queue <- message`: there is room in the channel.
unfoldable pub has_room : Connection → Bool
has_room c = ltb (length c.queue) max_presenter_queue_messages

unfoldable pub push : Connection → Outbound → Connection
push c m = record c { queue = c.queue ++ m ∷ [] }

-- `Send` behind the reservation.
unfoldable pub send_reserved : Connection → Outbound → Connection × Outcome
unfolding follows release fail has_room push
send_reserved c m =
    if c.started
    then elim (follows c m.sequence) [
      | err e ↦ (fail (release c m), err out_of_order)
      | ok u ↦
          if has_room c
          then (record (push c m) { last_sequence = m.sequence }, ok tt)
          else (fail (release c m), err queue_overflow)
    ]
    else (record c { pending = c.pending ++ m ∷ [] }, ok tt)

-- `Send`, given the frame that `json.Marshal` made of the envelope, if it made one.
unfoldable pub send : Option Text → ℕ → Connection → Connection × Outcome
unfolding send_reserved reserve fail
send none sequence c = (fail c, err not_encoded)
send (some frame) sequence c =
    let m : Outbound = record { bytes = frame; sequence = sequence } in
    if c.failed
    then (c, err connection_failed)
    else elim (reserve c m) [ none ↦ (fail c, err queue_overflow) | some c' ↦ send_reserved c' m ]

-- The loop of `start` over the prologue.
unfoldable pub start_prologue : List Text → Connection → Connection × Outcome
unfolding reserve has_room push
start_prologue [] c = (c, ok tt)
start_prologue (frame ∷ frames) c =
    let m : Outbound = record { bytes = frame; sequence = 0 } in
    elim (reserve c m) [
      | none ↦ (c, err queue_overflow)
      | some c' ↦ if has_room c' then start_prologue frames (push c' m) else (c', err blocked)
    ]

-- The loop of `start` over what came in before; the slice itself stays until the loop has ended.
unfoldable pub start_pending : ℕ → List Outbound → Connection → Connection × Outcome
unfolding follows release has_room push
start_pending baseline [] c = (c, ok tt)
start_pending baseline (m ∷ ms) c =
    let skip = start_pending baseline ms (release c m) in
    let c' = record c { last_sequence = m.sequence } in
    let queued = start_pending baseline ms (push c' m) in
    if leb m.sequence baseline then skip else elim (follows c m.sequence) [
      | err e ↦ (c, err out_of_order)
      | ok u ↦ if has_room c' then queued else (c', err queue_overflow)
    ]

-- The end of `start`.
unfoldable pub finish_start : Connection × Outcome → Connection × Outcome
finish_start (c, err e) = (c, err e)
finish_start (c, ok u) = (record c { pending = []; started = true }, ok tt)

unfoldable pub start_queued : ℕ → Connection × Outcome → Connection × Outcome
unfolding start_pending finish_start
start_queued baseline (c, err e) = (c, err e)
start_queued baseline (c, ok u) = finish_start (start_pending baseline c.pending c)

unfoldable pub start : ℕ → List Text → Connection → Connection × Outcome
unfolding start_prologue start_queued
start baseline prologue c =
    if c.failed
    then (c, err connection_failed)
    else start_queued baseline (start_prologue prologue (record c { last_sequence = baseline }))

-- `reply`, given the frame of its envelope.
unfoldable pub reply : Option Text → Connection → Connection × Outcome
unfolding reserve release has_room push
reply none c = (c, err not_encoded)
reply (some frame) c =
    let m : Outbound = record { bytes = frame; sequence = 0 } in
    if c.failed then (c, err cannot_queue_reply) else elim (reserve c m) [
      | none ↦ (c, err cannot_queue_reply)
      | some c' ↦ if has_room c' then (push c' m, ok tt) else (release c' m, err queue_overflow)
    ]

-- `message := <-c.queue` of the write loop, which has released what it wrote before.
pub take_next : Connection → Connection × Option Outbound
take_next c = elim c.writing [
  | some m ↦ (c, none)
  | none ↦ elim c.queue [
    | [] ↦ (c, none)
    | m ∷ rest ↦ (record c { queue = rest; writing = some m }, some m)
  ]
]

-- The write loop after `WriteFrame`, which may have failed; then the writer ends.
pub wrote : Bool → Connection → Connection
unfolding release fail
wrote written c = elim c.writing [
  | none ↦ c
  | some m ↦ if written then record (release c m) { writing = none } else fail c
]
