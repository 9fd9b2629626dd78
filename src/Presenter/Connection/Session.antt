-- ===== src/Presenter/Connection/Session.antt =====
-- internal/presenter/connection.go: one presenter from its handshake on.
use mathlib.Core.List.{append-nil, append_assoc}
use sysc_tray.Prelude.{
  ℕ, ◌<◌, ◌≡◌, refl, ap, ◌∙◌, ◌≢◌, ◌⊎◌, inl, inr, true, List, [], ◌∷◌, ◌++◌, map, arith, ok, err,
  All, Text,
}
use sysc_tray.Presenter.Connection.{
  Outbound, Connection, new_connection, blocked, follows, release, start_prologue, start_pending,
  start,
}
use sysc_tray.Presenter.Connection.Budget.{
  IsAccounted, start_prologue-Continues, start_pending-Continues, send-IsAccounted,
  reply-IsAccounted, take_next-IsAccounted, wrote-IsAccounted, reserved,
}
use sysc_tray.Presenter.Connection.Order.{
  Chain, Chain-append, follows_next, Event, sends, replies, takes, writes, step, run, IsNumbered,
  Extends, Extends-trans, run-Extends, quiet, single,
}

abbrev pub handshake : Text → Outbound
handshake f = record { bytes = f; sequence = 0 }

-- A completed prologue has added the frames to the queue and nothing else.
start_prologue_done :
    (frames : List Text) (c c' : Connection)
    → start_prologue frames c ≡ (c', ok tt)
    → (c'.queue ≡ c.queue ++ map handshake frames)
      × (c'.last_sequence ≡ c.last_sequence)
      × (c'.pending ≡ c.pending)
unfolding start_prologue
start_prologue_done [] c c' h = ground (arith, append-nil c.queue)
start_prologue_done (f ∷ frames) c c' h = ground (
  arith,
  start_prologue_done frames (reserved c (handshake f)) c',
  append_assoc c.queue (handshake f ∷ []) (map handshake frames),
)

abbrev queued : Connection → Outbound → Connection
queued c m = record c { queue = c.queue ++ m ∷ []; last_sequence = m.sequence }

start_pending_step :
    (baseline : ℕ) (m : Outbound) (ms : List Outbound) (c c' : Connection)
    → start_pending baseline (m ∷ ms) c ≡ (c', ok tt)
    → (start_pending baseline ms (release c m) ≡ (c', ok tt))
      ⊎ ((baseline < m.sequence)
          × (follows c m.sequence ≡ ok tt)
          × (start_pending baseline ms (queued c m) ≡ (c', ok tt)))
unfolding start_pending
start_pending_step baseline m ms c c' h = ground arith

-- The messages that came in before the start are left out or follow one another in the queue.
start_pending_done :
    (baseline : ℕ) (ms : List Outbound) (c c' : Connection)
    → start_pending baseline ms c ≡ (c', ok tt)
    → Extends c c' []
unfolding start_pending Chain
start_pending_done baseline [] c c' h = quiet c c' (ground arith) (ground arith)
start_pending_done baseline (m ∷ ms) c c' h = elim (start_pending_step baseline m ms c c' h) [
  | inl skipped ↦
      let x = start_pending_done baseline ms (release c m) c' skipped in
      record { added = x.added; stream = x.stream; chain = x.chain }
  | inr (later, next, rest) ↦
      Extends-trans c (queued c m) c' [] []
        (single c (queued c m) m refl (inr (follows_next c m.sequence (omega arith) next))
          (ground arith))
        (start_pending_done baseline ms (queued c m) c' rest)
]

start_parts :
    (baseline : ℕ) (frames : List Text) (c c' : Connection)
    → start baseline frames c ≡ (c', ok tt)
    → (d : Connection) × (e : Connection) × (start_prologue frames
          (record c { last_sequence = baseline })
        ≡ (d, ok tt))
      × (start_pending baseline d.pending d ≡ (e, ok tt))
      × (c' ≡ record e { pending = []; started = true })
unfolding start
start_parts baseline frames c c' h =
    let d = (start_prologue frames (record c { last_sequence = baseline })).0 in
    let e = (start_pending baseline d.pending d).0 in
    (d, e, ground arith, ground arith, ground arith)

start-stream :
    (baseline : ℕ) (frames : List Text) (c c' : Connection)
    → start baseline frames c ≡ (c', ok tt)
    → (added : List Outbound) × (c'.queue ≡ (c.queue ++ map handshake frames) ++ added)
      × Chain baseline added c'.last_sequence
start-stream baseline frames c c' h =
    let (d, e, first, second, end) = start_parts baseline frames c c' h in
    let p = start_prologue_done frames (record c { last_sequence = baseline }) d first in
    let x = start_pending_done baseline d.pending d e second in
    (
      x.added,
      rw end (x.stream ∙ ap (λ (q : List Outbound). q ++ x.added) p.0),
      rw (end, ← p.1) x.chain,
    )

-- A start that succeeds, whatever was sent before it, and any events after it: what the writer has
-- taken and what still waits are the hello, the snapshot, and then messages whose deltas are numbered
-- without a gap from the number of the snapshot to the last one taken over.
pub session_order :
    (baseline : ℕ) (hello snapshot : Text) (c c' : Connection) (es : List Event)
    → c.queue ≡ []
    → start baseline (hello ∷ snapshot ∷ []) c ≡ (c', ok tt)
    → All IsNumbered es
    → (rest : List Outbound) × ((run es c').1 ++ (run es c').0.queue
        ≡ handshake hello ∷ handshake snapshot ∷ rest)
      × Chain baseline rest (run es c').0.last_sequence
session_order baseline hello snapshot c c' es empty begun n =
    let s = start-stream baseline (hello ∷ snapshot ∷ []) c c' begun in
    let x = run-Extends es c' n in
    (
      s.0 ++ x.added,
      x.stream
          ∙ ap (λ (q : List Outbound). q ++ x.added) s.1
          ∙ append_assoc (c.queue ++ handshake hello ∷ handshake snapshot ∷ []) s.0 x.added
          ∙ ap
              (λ (q : List Outbound).
                (q ++ handshake hello ∷ handshake snapshot ∷ []) ++ (s.0 ++ x.added))
              empty,
      Chain-append baseline c'.last_sequence (run es c').0.last_sequence s.0 x.added s.2 x.chain,
    )

start_prologue-pending :
    (frames : List Text) (c : Connection) → (start_prologue frames c).0.pending ≡ c.pending
unfolding start_prologue
start_prologue-pending [] c = refl
start_prologue-pending (f ∷ frames) c =
    ground (arith, start_prologue-pending frames (reserved c (handshake f)))

-- From an account that holds, `start` never waits on a full channel, and the account holds after a
-- success.
pub start-Accounts :
    (baseline : ℕ) (frames : List Text) (c : Connection)
    → IsAccounted c
    → ((start baseline frames c).1 ≢ err blocked)
      × ((start baseline frames c).1 ≡ ok tt → IsAccounted (start baseline frames c).0)
unfolding start
start-Accounts baseline frames c a =
    let d = start_prologue frames (record c { last_sequence = baseline }) in
    ground (
      arith,
      start_prologue-Continues c.pending frames (record c { last_sequence = baseline })
          (record { messages = a.messages; bytes = a.bytes; few = a.few; small = a.small }),
      start_prologue-pending frames (record c { last_sequence = baseline }),
      start_pending-Continues baseline d.0.pending d.0,
    )

step-IsAccounted : (e : Event) (c : Connection) → IsAccounted c → IsAccounted (step e c).0
unfolding step
step-IsAccounted (sends f s) c a = send-IsAccounted f s c a
step-IsAccounted (replies f) c a = reply-IsAccounted f c a
step-IsAccounted takes c a = ground (arith, take_next-IsAccounted c a)
step-IsAccounted (writes b) c a = wrote-IsAccounted b c a

run-IsAccounted : (es : List Event) (c : Connection) → IsAccounted c → IsAccounted (run es c).0
unfolding run
run-IsAccounted [] c a = a
run-IsAccounted (e ∷ es) c a = run-IsAccounted es (step e c).0 (step-IsAccounted e c a)

-- Whatever was sent to a new connection and taken from it before, its start does not wait on a full
-- channel.
pub session_ready :
    (before : List Event) (baseline : ℕ) (frames : List Text)
    → (start baseline frames (run before new_connection).0).1 ≢ err blocked
session_ready before baseline frames =
    let c = (run before new_connection).0 in
    (start-Accounts baseline frames c (run-IsAccounted before new_connection (omega arith))).0

-- Whatever reaches a new connection before a start that succeeds and after it, the counters are
-- exactly the number and the bytes of the messages held, which are at most 256 and 32 MiB.
pub session-IsAccounted :
    (before es : List Event) (baseline : ℕ) (frames : List Text) (c : Connection)
    → start baseline frames (run before new_connection).0 ≡ (c, ok tt)
    → IsAccounted (run es c).0
session-IsAccounted before es baseline frames c done =
    let d = (run before new_connection).0 in
    let a =
      start-Accounts baseline frames d (run-IsAccounted before new_connection (omega arith)) in
    run-IsAccounted es c (rw (ap (λ p. p.0) done) at (a.1 (ap (λ p. p.1) done)))
