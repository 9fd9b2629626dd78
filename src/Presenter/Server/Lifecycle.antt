-- ===== src/Presenter/Server/Lifecycle.antt =====
-- internal/presenter/server.go: Serve, Close, the loop that accepts and the goroutines of `handle`. A
-- connection is the number under which it was accepted. A step is what one of the goroutines does
-- between two waits; a step that cannot be taken now changes nothing.
pub mod Turns
pub mod Counted
pub mod Late
use sysc_tray.Prelude.{
  ℕ, suc, Bool, true, false, not, ◌&&◌, ◌||◌, ◌==◌, List, [], ◌∷◌, Option, none, some,
  if◌then◌else◌, contains,
}
use sysc_tray.Protocol.Types.{Snapshot}
use sysc_tray.Protocol.Items.{IconOrder}
use sysc_tray.State.Owner.{Owner}
use sysc_tray.Presenter.Server.{Server, fail, connection_done, enter}

-- `handlers` are the goroutines of `handle` that the wait group counts, `served` those of them that have
-- started their writer. `accepting` is the goroutine of the loop. `reported` is what waits in `done`, and
-- `closed` that Close has returned.
pub record Life : Type 0 where
  pub server : Server
  pub started : Bool
  pub listening : Bool
  pub accepting : Bool
  pub stopping : Bool
  pub handlers : List ℕ
  pub served : List ℕ
  pub next : ℕ
  pub reported : Bool
  pub socket : Bool
  pub closed : Bool

-- `NewAt`, and the owner that `Serve` is given.
abbrev pub new_life : Owner → Life
new_life owner = record {
  server = record { owner = owner; current = none; next_generation = 0; failed = [] };
  started = false;
  listening = false;
  accepting = false;
  stopping = false;
  handlers = [];
  served = [];
  next = 0;
  reported = false;
  socket = false;
  closed = false;
}

abbrev pub has : ℕ → List ℕ → Bool
has id ids = contains ◌==◌ id ids

pub leave_out : ℕ → List ℕ → List ℕ
leave_out id [] = []
leave_out id (x ∷ xs) = let rest = leave_out id xs in if x == id then rest else x ∷ rest

-- `Serve`: `can_listen` says whether `listenRuntime` succeeds.
pub serve : Bool → Life → Life
serve can_listen l =
    if l.started
    then l
    else if can_listen
    then record l { started = true; listening = true; accepting = true; socket = true }
    else record l { started = true }

-- `AcceptUnix` gives a socket.
accept : Life → Life
accept l =
    if l.accepting && l.listening
    then record l { handlers = l.next ∷ l.handlers; next = suc l.next }
    else l

-- `AcceptUnix` fails: the error is reported unless the server stops or one waits already.
accept_error : Life → Life
accept_error l =
    if l.accepting
    then record l { accepting = false; reported = l.reported || not l.stopping }
    else l

unfoldable pub is_greeting : ℕ → Life → Bool
is_greeting id l = has id l.handlers && not (has id l.served)

-- The deferred end of `handle`.
finish : ℕ → Server → Life → Life
unfolding leave_out
finish id s l = record l {
  server = s;
  handlers = leave_out id l.handlers;
  served = leave_out id l.served;
}

-- A return of `handle` in front of `Attach`.
refuse : ℕ → Life → Life
unfolding is_greeting finish
refuse id l = if is_greeting id l then finish id (connection_done id l.server) l else l

-- The reading loop of a presenter ends, because it failed or the peer went.
leave : ℕ → Life → Life
unfolding finish
leave id l = if has id l.served then finish id (connection_done id l.server) l else l

is_current : ℕ → Option ℕ → Bool
is_current id none = false
is_current id (some c) = c == id

fail_current : Option ℕ → Server → Server
fail_current none s = s
fail_current (some c) s = fail c s

-- `Close` up to its wait. The listener is closed, and the connection that is current fails.
close_begin : Life → Life
unfolding fail_current
close_begin l = if l.stopping then l else record l {
  stopping = true;
  listening = false;
  server = fail_current l.server.current l.server;
}

is_idle : List ℕ → Bool
is_idle [] = true
is_idle ids = false

-- The rest of `Close`, when the wait group is down to zero.
close_end : Life → Life
unfolding is_idle
close_end l =
    if l.stopping && (is_idle l.handlers && not l.accepting)
    then record l { socket = false; closed = true }
    else l

pub data Step : Type 0 where
  serves : Bool → Step
  accepts accept_fails close_begins close_ends : Step
  refuses enters leaves : ℕ → Step

module _ (order : IconOrder) (prepares : Snapshot → Bool) where
  -- `handle` from `Attach` on; it goes on to serve if the connection became the current one.
  entered : ℕ → Life → Server → Life
  unfolding finish is_current
  entered id l s =
      if is_current id s.current
      then record l { server = s; served = id ∷ l.served }
      else finish id s l

  greet : ℕ → Life → Life
  unfolding is_greeting entered
  greet id l = if is_greeting id l then entered id l (enter order prepares id l.server) else l

  pub take_step : Life → Step → Life
  unfolding serve accept accept_error refuse greet leave close_begin close_end
  take_step l (serves can_listen) = serve can_listen l
  take_step l accepts = accept l
  take_step l accept_fails = accept_error l
  take_step l (refuses id) = refuse id l
  take_step l (enters id) = greet id l
  take_step l (leaves id) = leave id l
  take_step l close_begins = close_begin l
  take_step l close_ends = close_end l

  pub run : Life → List Step → Life
  unfolding take_step
  run l [] = l
  run l (s ∷ ss) = run (take_step l s) ss
