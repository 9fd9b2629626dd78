-- ===== src/Presenter/Server/Lifecycle/Counted.antt =====
-- internal/presenter/server.go: the connections that a server has accepted, whatever its goroutines do.
use sysc_tray.Prelude.{
  ℕ, ◌<◌, ◌≡◌, ◌⊎◌, inl, inr, refl, arith, Bool, true, false, not, ◌&&◌, ◌==◌, List, [], ◌∷◌,
  Option, none, some, if◌then◌else◌, if_elim, if_both, contains, Bool-cases,
}
use sysc_tray.Protocol.Types.{Snapshot}
use sysc_tray.Protocol.Items.{IconOrder}
use sysc_tray.State.Owner.{Owner}
use sysc_tray.Presenter.Server.{Server, fail, connection_done, enter, replaced, released}
use sysc_tray.Presenter.Server.Lifecycle.{
  Life, new_life, has, serve, accept, accept_error, is_greeting, finish, refuse, leave, is_current,
  fail_current, close_begin, is_idle, close_end, Step, serves, accepts, accept_fails, close_begins,
  close_ends, refuses, enters, leaves, entered, greet, take_step, run,
}
use sysc_tray.Presenter.Server.Lifecycle.Turns.{
  has-leave_out, has-cons, leave_out-idle, released_iff, has-replaced, connection_done-Ended,
  enter-cases, Ended, Taken,
}

-- Of a server that was started: every connection that was accepted is handled or failed; the current one
-- is served, and every other one that is served is failed; a server that was closed handles none.
pub record IsLife (l : Life) : Type 0 where
  pub started : l.started ≡ true
  pub below : (id : ℕ) → has id l.handlers ≡ true → id < l.next
  pub handled : (id : ℕ) → has id l.served ≡ true → has id l.handlers ≡ true
  pub current : (id : ℕ) → l.server.current ≡ some id → has id l.served ≡ true
  pub one :
      (id : ℕ)
      → has id l.served ≡ true
      → (l.server.current ≡ some id) ⊎ (has id l.server.failed ≡ true)
  pub gone : (id : ℕ) → id < l.next → has id l.handlers ≡ false → has id l.server.failed ≡ true
  pub stopped : l.stopping ≡ true → l.listening ≡ false
  pub closed :
      l.closed ≡ true
      → (l.stopping ≡ true) × (l.handlers ≡ []) × (l.accepting ≡ false) × (l.socket ≡ false)

-- The end of a connection.
finish-IsLife :
    (id : ℕ) (s : Server) (l : Life) → Ended id l.server s → IsLife l → IsLife (finish id s l)
unfolding finish
finish-IsLife id s l (now, failed) h = record {
  started = h.started;
  below = λ a ha. h.below a (ground (arith, has-leave_out a id l.handlers));
  handled = λ a ha.
      ground (arith, h.handled a, has-leave_out a id l.handlers, has-leave_out a id l.served);
  current = λ a ha.
      ground (arith, h.current a, released_iff id a l.server.current, has-leave_out a id l.served);
  one = λ a ha. ground (
    arith,
    h.one a,
    released_iff id a l.server.current,
    has-leave_out a id l.served,
    has-cons a id l.server.failed,
  );
  gone = λ a below ha.
      ground (arith, h.gone a, has-leave_out a id l.handlers, has-cons a id l.server.failed);
  stopped = h.stopped;
  closed = λ e.
      let (stopping, idle, alone, free) = h.closed e in
      (stopping, leave_out-idle id l.handlers idle, alone, free);
}

-- A connection that becomes the current one.
Taken-IsLife :
    (id : ℕ) (s : Server) (l : Life)
    → is_greeting id l ≡ true
    → Taken id l.server s
    → IsLife l
    → IsLife (record l { server = s; served = id ∷ l.served })
unfolding is_greeting
Taken-IsLife id s l fresh (now, failed) h = record {
  started = h.started;
  below = h.below;
  handled = λ a ha. ground (arith, h.handled a, has-cons a id l.served);
  current = λ a ha. ground (arith, has-cons a id l.served);
  one = λ a ha. one_taken a ha;
  gone = λ a below ha. ground (arith, h.gone a, kept a l.server.current);
  stopped = h.stopped;
  closed = h.closed;
}
  where
    kept :
        (a : ℕ) (o : Option ℕ)
        → has a l.server.failed ≡ true
        → has a (replaced id o l.server.failed) ≡ true
    kept a none p = unfold replaced in p
    kept a (some old) p = ground (arith, has-replaced id a old l.server.failed)

    rest :
        (a : ℕ) (o : Option ℕ)
        → (o ≡ some a) ⊎ (has a l.server.failed ≡ true)
        → (a == id) ≡ false
        → has a (replaced id o l.server.failed) ≡ true
    rest a none p other = ground (arith, kept a none)
    rest a (some old) p other = ground (arith, has-replaced id a old l.server.failed)

    one_taken :
        (a : ℕ) → has a (id ∷ l.served) ≡ true → (s.current ≡ some a) ⊎ (has a s.failed ≡ true)
    one_taken a ha = elim (Bool-cases (a == id)) [
      | inl same ↦ inl (ground arith)
      | inr other ↦ inr (
          rw failed
            (rest a l.server.current (h.one a (ground (arith, has-cons a id l.served))) other))
    ]

serve-IsLife : (b : Bool) (l : Life) → IsLife l → IsLife (serve b l)
unfolding serve
serve-IsLife b l h = if_elim IsLife l.started _ _ (λ e. h) (λ e. absurd (ground (arith, h.started)))

accept-IsLife : (l : Life) → IsLife l → IsLife (accept l)
unfolding accept
accept-IsLife l h =
    if_elim IsLife (l.accepting && l.listening) _ _
      (λ can. record {
        started = h.started;
        below = λ a ha. ground (arith, h.below a, has-cons a l.next l.handlers);
        handled = λ a ha. ground (arith, h.handled a, has-cons a l.next l.handlers);
        current = h.current;
        one = h.one;
        gone = λ a below ha. ground (arith, h.gone a, has-cons a l.next l.handlers);
        stopped = h.stopped;
        closed = λ e. let c = h.closed e in absurd (ground arith);
      })
      (λ cannot. h)

accept_error-IsLife : (l : Life) → IsLife l → IsLife (accept_error l)
unfolding accept_error
accept_error-IsLife l h =
    if_elim IsLife l.accepting _ _
      (λ can. record {
        started = h.started;
        below = h.below;
        handled = h.handled;
        current = h.current;
        one = h.one;
        gone = h.gone;
        stopped = h.stopped;
        closed = λ e. let (a, b, c, d) = h.closed e in (a, b, refl, d);
      })
      (λ cannot. h)

-- More connections fail.
failing-IsLife :
    (o : Option ℕ) (l : Life) → IsLife l → IsLife (record l { server = fail_current o l.server })
unfolding fail_current fail
failing-IsLife none l h = h
failing-IsLife (some c) l h = record {
  started = h.started;
  below = h.below;
  handled = h.handled;
  current = h.current;
  one = λ a ha. ground (arith, h.one a ha, has-cons a c l.server.failed);
  gone = λ a below ha. ground (arith, h.gone a below ha, has-cons a c l.server.failed);
  stopped = h.stopped;
  closed = h.closed;
}

stopping-IsLife : (l : Life) → IsLife l → IsLife (record l { stopping = true; listening = false })
stopping-IsLife l h = record {
  started = h.started;
  below = h.below;
  handled = h.handled;
  current = h.current;
  one = h.one;
  gone = h.gone;
  stopped = λ e. refl;
  closed = λ e. let (a, b, c, d) = h.closed e in (refl, b, c, d);
}

close_begin-IsLife : (l : Life) → IsLife l → IsLife (close_begin l)
unfolding close_begin
close_begin-IsLife l h =
    if_elim IsLife l.stopping _ _ (λ e. h)
      (λ e.
        stopping-IsLife (record l { server = fail_current l.server.current l.server })
          (failing-IsLife l.server.current l h))

is_idle-nil : (ids : List ℕ) → is_idle ids ≡ true → ids ≡ []
unfolding is_idle
is_idle-nil [] h = refl
is_idle-nil (x ∷ xs) h = cc

close_end-IsLife : (l : Life) → IsLife l → IsLife (close_end l)
unfolding close_end
close_end-IsLife l h =
    if_elim IsLife (l.stopping && (is_idle l.handlers && not l.accepting)) _ _
      (λ can. record {
        started = h.started;
        below = h.below;
        handled = h.handled;
        current = h.current;
        one = h.one;
        gone = h.gone;
        stopped = h.stopped;
        closed = λ e. (ground arith, is_idle-nil l.handlers (ground arith), ground arith, refl);
      })
      (λ cannot. h)

done-IsLife :
    (b : Bool) (id : ℕ) (l : Life)
    → IsLife l
    → IsLife (if b then finish id (connection_done id l.server) l else l)
done-IsLife b id l h =
    if_both IsLife b _ _
      (finish-IsLife id (connection_done id l.server) l (connection_done-Ended id l.server) h) h

refuse-IsLife : (id : ℕ) (l : Life) → IsLife l → IsLife (refuse id l)
unfolding refuse
refuse-IsLife id l h = done-IsLife (is_greeting id l) id l h

leave-IsLife : (id : ℕ) (l : Life) → IsLife l → IsLife (leave id l)
unfolding leave
leave-IsLife id l h = done-IsLife (has id l.served) id l h

released_self : (id : ℕ) (o : Option ℕ) → is_current id (released id o) ≡ false
unfolding released is_current
released_self id none = refl
released_self id (some c) = ground arith

is_current-some : (id : ℕ) (o : Option ℕ) → o ≡ some id → is_current id o ≡ true
unfolding is_current
is_current-some id none h = cc
is_current-some id (some c) h = ground arith

module _ (order : IconOrder) (prepares : Snapshot → Bool) where
  entered-IsLife :
      (id : ℕ) (l : Life) (s : Server)
      → is_greeting id l ≡ true
      → Taken id l.server s ⊎ Ended id l.server s
      → IsLife l
      → IsLife (entered order prepares id l s)
  unfolding entered
  entered-IsLife id l s fresh (inl taken) h =
      if_elim IsLife (is_current id s.current) _ _ (λ e. Taken-IsLife id s l fresh taken h)
        (λ e. absurd (ground (arith, is_current-some id s.current)))
  entered-IsLife id l s fresh (inr ended) h =
      if_elim IsLife (is_current id s.current) _ _
        (λ e. absurd (ground (arith, ended.0, released_self id l.server.current)))
        (λ e. finish-IsLife id s l ended h)

  greet-IsLife : (id : ℕ) (l : Life) → IsLife l → IsLife (greet order prepares id l)
  unfolding greet
  greet-IsLife id l h =
      if_elim IsLife (is_greeting id l) _ _
        (λ fresh.
          entered-IsLife id l (enter order prepares id l.server) fresh
            (enter-cases order prepares id l.server) h)
        (λ e. h)

  pub take_step-IsLife : (l : Life) (s : Step) → IsLife l → IsLife (take_step order prepares l s)
  unfolding take_step
  take_step-IsLife l (serves b) h = serve-IsLife b l h
  take_step-IsLife l accepts h = accept-IsLife l h
  take_step-IsLife l accept_fails h = accept_error-IsLife l h
  take_step-IsLife l (refuses id) h = refuse-IsLife id l h
  take_step-IsLife l (enters id) h = greet-IsLife id l h
  take_step-IsLife l (leaves id) h = leave-IsLife id l h
  take_step-IsLife l close_begins h = close_begin-IsLife l h
  take_step-IsLife l close_ends h = close_end-IsLife l h

  run-IsLife : (l : Life) (ss : List Step) → IsLife l → IsLife (run order prepares l ss)
  unfolding run
  run-IsLife l [] h = h
  run-IsLife l (s ∷ ss) h = run-IsLife (take_step order prepares l s) ss (take_step-IsLife l s h)

-- What `Serve` makes of a new server.
started-IsLife : (owner : Owner) → IsLife (serve true (new_life owner))
unfolding serve contains
started-IsLife owner = record {
  started = refl;
  below = λ id h. cc;
  handled = λ id h. cc;
  current = λ id h. cc;
  one = λ id h. cc;
  gone = λ id h. absurd (omega arith);
  stopped = λ h. cc;
  closed = λ h. cc;
}

module _ (order : IconOrder) (prepares : Snapshot → Bool) where
  -- A server that is started, whatever its goroutines and Close do then, in whatever order: each connection
  -- that it accepted is still handled or is failed; the current one is served, and every other one that is
  -- served is failed; and when Close has returned, none is handled, the loop has ended and the socket is
  -- removed.
  pub run-start-IsLife :
      (owner : Owner) (ss : List Step)
      → IsLife (run order prepares (take_step order prepares (new_life owner) (serves true)) ss)
  run-start-IsLife owner ss =
      run-IsLife order prepares _ ss (unfold take_step in started-IsLife owner)
