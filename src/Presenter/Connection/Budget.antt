-- ===== src/Presenter/Connection/Budget.antt =====
-- internal/presenter/connection.go: the two counters are the number and the bytes of the messages
-- that are held, so the queue stays within its bounds and its channel is never full.
use sysc_tray.Prelude.{
  ℕ, suc, ◌+◌, ◌<◌, ◌≤◌, ◌≡◌, ◌≢◌, Bool, true, false, List, [], ◌∷◌, ◌++◌, Option, none, some,
  arith, ok, err, length, length-append, sum_by, sum_by-append, Text,
}
use sysc_tray.Protocol.Types.{max_presenter_queue_messages, max_presenter_decoded_bytes}
use sysc_tray.Presenter.Connection.{
  Outbound, Connection, Outcome, blocked, follows, reserve, release, send, start_prologue,
  start_pending, reply, take_next, wrote, push, has_room,
}

abbrev pub outbound_bytes : List Outbound → ℕ
outbound_bytes = sum_by (λ m. length m.bytes)

abbrev pub held_messages : Option Outbound → ℕ
held_messages none = 0
held_messages (some m) = 1

abbrev pub held_bytes : Option Outbound → ℕ
held_bytes none = 0
held_bytes (some m) = length m.bytes

-- The counters stand for the queue, the messages `waiting` and the one being written.
pub record Accounts (waiting : List Outbound) (c : Connection) : Type 0 where
  pub messages : c.queued_messages ≡ length c.queue + length waiting + held_messages c.writing
  pub bytes :
      c.queued_bytes ≡ outbound_bytes c.queue + outbound_bytes waiting + held_bytes c.writing
  pub few : c.queued_messages ≤ max_presenter_queue_messages
  pub small : c.queued_bytes ≤ max_presenter_decoded_bytes

abbrev pub IsAccounted : Connection → Type 0
IsAccounted c = Accounts c.pending c

snoc_count : (xs : List Outbound) (m : Outbound) → length (xs ++ m ∷ []) ≡ suc (length xs)
snoc_count xs m = omega (arith, length-append xs (m ∷ []))

snoc_bytes :
    (xs : List Outbound) (m : Outbound)
    → outbound_bytes (xs ++ m ∷ []) ≡ outbound_bytes xs + length m.bytes
snoc_bytes xs m = omega (arith, sum_by-append (λ (x : Outbound). length x.bytes) xs (m ∷ []))

-- `Send` keeps the account, whatever it answers.
pub send-IsAccounted :
    (frame : Option Text) (s : ℕ) (c : Connection) → IsAccounted c → IsAccounted (send frame s c).0
unfolding send follows
send-IsAccounted none s c a = ground arith
send-IsAccounted (some f) s c a = ground (
  arith,
  snoc_count c.queue (record { bytes = f; sequence = s }),
  snoc_bytes c.queue (record { bytes = f; sequence = s }),
  snoc_count c.pending (record { bytes = f; sequence = s }),
  snoc_bytes c.pending (record { bytes = f; sequence = s }),
)

pub reply-IsAccounted :
    (frame : Option Text) (c : Connection) → IsAccounted c → IsAccounted (reply frame c).0
unfolding reply
reply-IsAccounted none c a = ground arith
reply-IsAccounted (some f) c a = ground (
  arith,
  snoc_count c.queue (record { bytes = f; sequence = 0 }),
  snoc_bytes c.queue (record { bytes = f; sequence = 0 }),
)

pub take_next-IsAccounted : (c : Connection) → IsAccounted c → IsAccounted (take_next c).0
unfolding take_next
take_next-IsAccounted c a = ground arith

pub wrote-IsAccounted : (b : Bool) (c : Connection) → IsAccounted c → IsAccounted (wrote b c)
unfolding wrote
wrote-IsAccounted b c a = ground arith

-- A reserved message finds room in the channel.
has_room_lem :
    (ps : List Outbound) (c c' : Connection) (m : Outbound)
    → Accounts ps c
    → reserve c m ≡ some c'
    → has_room c' ≡ true
unfolding reserve has_room
has_room_lem ps c c' m a h = ground arith

-- `Send` on a started connection queues every message that the budget admits and that follows the
-- last one, and takes it for the last: its channel is never found full.
pub send_admitted :
    (f : Text) (s : ℕ) (c : Connection)
    → IsAccounted c
    → c.failed ≡ false
    → c.started ≡ true
    → c.queued_messages < max_presenter_queue_messages
    → c.queued_bytes + length f ≤ max_presenter_decoded_bytes
    → follows c s ≡ ok tt
    → (send (some f) s c).1 ≡ ok tt
      × (send (some f) s c).0.queue ≡ c.queue ++ record { bytes = f; sequence = s } ∷ []
      × (send (some f) s c).0.last_sequence ≡ s
      × (send (some f) s c).0.failed ≡ false
unfolding send follows
send_admitted f s c a alive on room fits next = ground arith

-- What a loop of `start` leaves: an account that still holds, unless it stops, and no wait.
abbrev pub Continues : List Outbound → Connection × Outcome → Type 0
Continues ps (c, ok u) = Accounts ps c
Continues ps (c, err e) = e ≢ blocked

abbrev pub reserved : Connection → Outbound → Connection
reserved c m = record c {
  queue = c.queue ++ m ∷ [];
  queued_messages = c.queued_messages + 1;
  queued_bytes = c.queued_bytes + length m.bytes;
}

pub start_prologue-Continues :
    (ps : List Outbound) (frames : List Text) (c : Connection)
    → Accounts ps c
    → Continues ps (start_prologue frames c)
unfolding start_prologue
start_prologue-Continues ps [] c a = a
start_prologue-Continues ps (f ∷ frames) c a =
    let m : Outbound = record { bytes = f; sequence = 0 } in
    ground (
      arith,
      snoc_count c.queue m,
      snoc_bytes c.queue m,
      start_prologue-Continues ps frames (reserved c m),
    )

pub start_pending-Continues :
    (baseline : ℕ) (ms : List Outbound) (c : Connection)
    → Accounts ms c
    → Continues [] (start_pending baseline ms c)
unfolding start_pending
start_pending-Continues baseline [] c a = a
start_pending-Continues baseline (m ∷ ms) c a = ground (
  arith,
  snoc_count c.queue m,
  snoc_bytes c.queue m,
  start_pending-Continues baseline ms (release c m),
  start_pending-Continues baseline ms (push (record c { last_sequence = m.sequence }) m),
)
