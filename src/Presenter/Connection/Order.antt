-- ===== src/Presenter/Connection/Order.antt =====
-- internal/presenter/connection.go: what the shell reads is the handshake, then deltas without a gap.
use mathlib.Core.List.{append-nil, append_assoc}
use sysc_tray.Prelude.{
  ℕ, ◌+◌, ◌%◌, ◌^◌, ◌≡◌, refl, sym, ap, ◌∙◌, ◌≢◌, ◌⊎◌, inl, inr, Bool, List, [], ◌∷◌, ◌++◌, Option,
  none, some, arith, ◌==◌, if◌then◌else◌, ok, All, Text,
}
use sysc_tray.Protocol.Messages.{validate_next_sequence}
use sysc_tray.Presenter.Connection.{
  Outbound, Connection, follows, fail, send, reply, take_next, wrote,
}

-- The number of the last delta, once `m` is sent; a reply and the handshake have the number 0.
abbrev pub after : ℕ → Outbound → ℕ
after s m = if m.sequence == 0 then s else m.sequence

-- The deltas among the messages are numbered without a gap from `s` to `t`.
unfoldable pub Chain : ℕ → List Outbound → ℕ → Type 0
Chain s [] t = t ≡ s
Chain s (m ∷ ms) t = ((m.sequence ≡ 0) ⊎ (m.sequence ≡ (s + 1) % 2 ^ 64)) × Chain (after s m) ms t

pub Chain-append :
    (s t u : ℕ) (xs ys : List Outbound) → Chain s xs t → Chain t ys u → Chain s (xs ++ ys) u
unfolding Chain
Chain-append s t u [] ys f g = rw f at g
Chain-append s t u (m ∷ xs) ys f g = (f.0, Chain-append (after s m) t u xs ys f.1 g)

pub follows_next :
    (c : Connection) (s : ℕ) → s ≢ 0 → follows c s ≡ ok tt → s ≡ (c.last_sequence + 1) % 2 ^ 64
unfolding follows validate_next_sequence
follows_next c s n h = ground arith

pub data Event : Type 0 where
  sends : Option Text → ℕ → Event
  replies : Option Text → Event
  takes : Event
  writes : Bool → Event

taken_list : Connection × Option Outbound → Connection × List Outbound
taken_list (c, none) = (c, [])
taken_list (c, some m) = (c, m ∷ [])

-- One event, with what the writer took from the queue.
unfoldable pub step : Event → Connection → Connection × List Outbound
unfolding taken_list
step (sends frame s) c = ((send frame s c).0, [])
step (replies frame) c = ((reply frame c).0, [])
step takes c = taken_list (take_next c)
step (writes b) c = (wrote b c, [])

unfoldable pub run : List Event → Connection → Connection × List Outbound
run [] c = (c, [])
run (e ∷ es) c = let (c', ms) = step e c in let (c'', ns) = run es c' in (c'', ms ++ ns)

-- The owner numbers its deltas from 1.
abbrev pub IsNumbered : Event → Type 0
IsNumbered (sends frame s) = s ≢ 0
IsNumbered _ = Unit {0}

-- The writer's part and the new queue are the old queue and what was added behind it.
pub record Extends (c c' : Connection) (taken : List Outbound) : Type 0 where
  pub added : List Outbound
  pub stream : taken ++ c'.queue ≡ c.queue ++ added
  pub chain : Chain c.last_sequence added c'.last_sequence

-- Nothing is added.
pub quiet :
    (c c' : Connection) → c'.queue ≡ c.queue → c'.last_sequence ≡ c.last_sequence → Extends c c' []
unfolding Chain
quiet c c' q l = record { added = []; stream = q ∙ sym (append-nil c.queue); chain = l }

-- One message is added.
pub single :
    (c c' : Connection) (m : Outbound)
    → c'.queue ≡ c.queue ++ m ∷ []
    → (m.sequence ≡ 0) ⊎ (m.sequence ≡ (c.last_sequence + 1) % 2 ^ 64)
    → c'.last_sequence ≡ after c.last_sequence m
    → Extends c c' []
unfolding Chain
single c c' m q l e = record { added = m ∷ []; stream = q; chain = (l, e) }

-- What `Send` leaves of the queue and the number.
send_cases :
    (f : Text) (s : ℕ) (c : Connection)
    → let c' = (send (some f) s c).0 in
      ((c'.queue ≡ c.queue) × (c'.last_sequence ≡ c.last_sequence))
      ⊎ ((c'.queue ≡ c.queue ++ record { bytes = f; sequence = s } ∷ [])
          × (c'.last_sequence ≡ s)
          × (follows c s ≡ ok tt))
unfolding send follows
send_cases f s c = ground arith

send-Extends : (f : Option Text) (s : ℕ) (c : Connection) → s ≢ 0 → Extends c (send f s c).0 []
send-Extends none s c n = unfold send in quiet c (fail c) refl refl
send-Extends (some f) s c n = elim (send_cases f s c) [
  | inl same ↦ quiet c _ same.0 same.1
  | inr new ↦
      single c _ (record { bytes = f; sequence = s }) new.0 (inr (follows_next c s n new.2))
        (ground (arith, new.1))
]

reply_cases :
    (f : Text) (c : Connection)
    → let c' = (reply (some f) c).0 in
      (c'.last_sequence ≡ c.last_sequence)
      × ((c'.queue ≡ c.queue) ⊎ (c'.queue ≡ c.queue ++ record { bytes = f; sequence = 0 } ∷ []))
unfolding reply
reply_cases f c = ground arith

reply-Extends : (f : Option Text) (c : Connection) → Extends c (reply f c).0 []
reply-Extends none c = unfold reply in quiet c c refl refl
reply-Extends (some f) c =
    let r = reply_cases f c in
    elim r.1 [
      | inl same ↦ quiet c _ same r.0
      | inr new ↦ single c _ (record { bytes = f; sequence = 0 }) new (inl refl) r.0
    ]

take-Extends : (c : Connection) → Extends c (step takes c).0 (step takes c).1
unfolding step take_next Chain
take-Extends c = record {
  added = [];
  stream = ground (arith, append-nil c.queue);
  chain = ground arith;
}

pub step-Extends : (e : Event) (c : Connection) → IsNumbered e → Extends c (step e c).0 (step e c).1
unfolding step wrote
step-Extends (sends f s) c n = send-Extends f s c n
step-Extends (replies f) c n = reply-Extends f c
step-Extends takes c n = take-Extends c
step-Extends (writes b) c n = quiet c (wrote b c) (ground arith) (ground arith)

pub Extends-trans :
    (c d e : Connection) (ms ns : List Outbound)
    → Extends c d ms
    → Extends d e ns
    → Extends c e (ms ++ ns)
Extends-trans c d e ms ns f g = record {
  added = f.added ++ g.added;
  stream =
      append_assoc ms ns e.queue
      ∙ ap (λ (r : List Outbound). ms ++ r) g.stream
      ∙ sym (append_assoc ms d.queue g.added)
      ∙ ap (λ (r : List Outbound). r ++ g.added) f.stream
      ∙ append_assoc c.queue f.added g.added;
  chain =
      Chain-append c.last_sequence d.last_sequence e.last_sequence f.added g.added f.chain g.chain;
}

pub run-Extends :
    (es : List Event) (c : Connection) → All IsNumbered es → Extends c (run es c).0 (run es c).1
unfolding run
run-Extends [] c n = quiet c c refl refl
run-Extends (e ∷ es) c n =
    let p = step e c in
    Extends-trans c p.0 (run es p.0).0 p.1 (run es p.0).1 (step-Extends e c n.0)
      (run-Extends es p.0 n.1)
