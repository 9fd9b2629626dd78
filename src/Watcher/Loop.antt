-- ===== src/Watcher/Loop.antt =====
-- internal/watcher/attach.go: `serveOnce` and the loop of `Run`, which serves the name when it is free and
-- else attaches to the watcher that owns it. A round is what the bus and the context do in one turn.
pub mod Turns
use sysc_tray.Prelude.{
  ℕ, Bool, true, false, List, [], ◌∷◌, ◌++◌, if◌then◌else◌, Text, Result, ok, err,
}
use sysc_tray.Matches.{Asked}
use sysc_tray.Watcher.Registry.{Event}
use sysc_tray.Watcher.Server.{Server, new_server, register_host, Call, run as run_server}
use sysc_tray.Watcher.Client.{Happening}
use sysc_tray.Watcher.Attach.{
  Answers, AttachError, Host, new_host, Attached, attach, live, close as close_host,
}
use sysc_tray.Watcher.Serving.{
  Answers as ServeAnswers, ServeError, Serving, Bus, idle_bus, serve, close as close_server,
  next_backoff, initial_backoff,
}

pub data Mode : Type 0 where
  stopped owner attached : Mode

-- `cancelled` says that the context ends while the relationship holds or is made, `cancelled_before` that it
-- has ended at the head of the loop, and `wakes` that the sleep ends by its timer.
pub record Round : Type 0 where
  pub cancelled_before : Bool
  pub grants : ServeAnswers
  pub host_name : Text
  pub calls : List Call
  pub answers : Answers
  pub early : List Happening
  pub later : List Happening
  pub cancelled : Bool
  pub wakes : Bool

-- The modes that are stored, what the observer is to be told, in the order of the
-- changes, what is asked of the bus for the host, and what the
-- connection holds for the server in the end.
pub record Once : Type 0 where
  pub progressed : Bool
  pub modes : List Mode
  pub told : List Event
  pub asked : List Asked
  pub bus : Bus

abbrev pub new_serving : Serving
new_serving = record { bus = idle_bus; served = false; closed = false }

-- What `Run` did, and whether it has returned.
pub record Ran : Type 0 where
  pub ended : Bool
  pub modes : List Mode
  pub told : List Event
  pub slept : List ℕ
  pub asked : List Asked
  pub buses : List Bus

halt : List Mode → Ran
halt ms = record { ended = true; modes = ms; told = []; slept = []; asked = []; buses = [] }

after : Once → List ℕ → Ran → Ran
after o ds rest = record {
  ended = rest.ended;
  modes = o.modes ++ rest.modes;
  told = o.told ++ rest.told;
  slept = ds ++ rest.slept;
  asked = o.asked ++ rest.asked;
  buses = o.bus ∷ rest.buses;
}

module _ (path_valid : Text → Bool) where
  -- The relationship as the owner of the name, with its own host registered.
  own : Round → Serving → Once
  own r s =
      let (t, es) = run_server path_valid (register_host new_server r.host_name).server r.calls in
      record {
        progressed = true;
        modes = owner ∷ stopped ∷ [];
        told = es;
        asked = [];
        bus = (close_server s).bus;
      }

  host_ends : Bool → List Mode → List Event → Host → Bus → Once
  host_ends progressed modes es h b =
      let (h', gs) = close_host path_valid h in
      record { progressed = progressed; modes = modes; told = es ++ gs; asked = h'.asked; bus = b }

  host_attached : Round → Bus → Attached → Once
  unfolding host_ends
  host_attached r b (h, err e, es) =
      let (h', fs) = live path_valid r.later h in host_ends false [] (es ++ fs) h' b
  host_attached r b (h, ok u, es) =
      let (h', fs) = live path_valid r.later h in
      host_ends true (attached ∷ stopped ∷ []) (es ++ fs) h' b

  served : Round → Serving × Result ServeError (Unit {0}) → Once
  unfolding own host_attached
  served r (s, ok u) = own r s
  served r (s, err e) = host_attached r s.bus (attach path_valid r.answers r.early new_host)

  -- `serveOnce`
  pub serve_once : Round → Once
  unfolding served
  serve_once r = served r (serve r.grants new_serving)

  -- `Run` from a backoff on; it has not returned when the rounds end.
  pub run : ℕ → List Round → Ran
  unfolding serve_once halt after
  run b [] = record { ended = false; modes = []; told = []; slept = []; asked = []; buses = [] }
  run b (r ∷ rs) =
      let o = serve_once r in
      let again = after o [] (run initial_backoff rs) in
      let retry = after o (b ∷ []) (run (next_backoff b) rs) in
      if r.cancelled_before
      then halt (stopped ∷ [])
      else if r.cancelled
      then after o [] (halt (stopped ∷ []))
      else if o.progressed
      then again
      else if r.wakes
      then retry
      else after o (b ∷ []) (halt (stopped ∷ []))
