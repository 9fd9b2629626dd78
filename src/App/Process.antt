-- ===== src/App/Process.antt =====
-- internal/app/run.go: Start, Run, Close and `unwind`, which bring the parts of the service up and down. What
-- other goroutines do to the service meanwhile is a list of its steps. The other fields of the service, which
-- `App` has as `connected`, are each a truth value here: whether the pointer is there.
pub mod Reversed
use sysc_tray.Prelude.{
  ℕ, Bool, true, false, not, ◌||◌, List, [], ◌∷◌, ◌++◌, map, Option, none, some, if◌then◌else◌,
  Text,
}
use sysc_tray.Ownership.{System}
use sysc_tray.App.{App, Effect, close_all}
use sysc_tray.App.Steps.{Step, new_app, run as run_steps}

pub data Part : Type 0 where
  state_owner session_bus watcher_loop presenter_server : Part

-- What is done, in order; the effects are those of the steps and of the workers that are stopped.
pub data Entry : Type 0 where
  started stopped : Part → Entry
  did : Effect → Entry

pub data Failure : Type 0 where
  already_started no_bus no_socket socket_failed : Failure
  not_closed : Part → Failure

pub record Process : Type 0 where
  pub owner : Bool
  pub conn : Bool
  pub watcher : Bool
  pub presenter : Bool
  pub app : App
  pub done : List Entry

-- `New`
abbrev pub new_process : Process
new_process = record {
  owner = false;
  conn = false;
  watcher = false;
  presenter = false;
  app = record new_app { connected = false };
  done = [];
}

-- Whether the bus can be reached and the socket made, and which Close calls give an error.
pub record Answers : Type 0 where
  pub connects : Bool
  pub serves : Bool
  pub fails_closing : Part → Bool

when : Bool → Part → List Part
when b p = if b then p ∷ [] else []

-- The parts that are there, newest first.
parts : Process → List Part
unfolding when
parts p =
    when p.presenter presenter_server
    ++ when p.watcher watcher_loop
    ++ when p.conn session_bus
    ++ when p.owner state_owner

-- The errors of these Close calls; the loop of the watcher has none.
close_errors : Answers → List Part → List Failure
close_errors a [] = []
close_errors a (watcher_loop ∷ ps) = close_errors a ps
close_errors a (p ∷ ps) =
    let rest = close_errors a ps in if a.fails_closing p then not_closed p ∷ rest else rest

-- `unwind` and `stopWorkers`, for the case that `server.Close` returns, and without what other goroutines do
-- meanwhile.
pub unwind : Answers → Process → Process × List Failure
unfolding parts when close_errors
unwind a p = (
  record {
    owner = false;
    conn = false;
    watcher = false;
    presenter = false;
    app = record p.app { workers = []; closing = true; connected = false };
    done =
        p.done
        ++ (map stopped (when p.presenter presenter_server)
            ++ (map did (close_all p.app.workers)
                ++ (map stopped (when p.watcher watcher_loop)
                    ++ (map stopped (when p.conn session_bus)
                        ++ map stopped (when p.owner state_owner)))));
  },
  close_errors a (parts p),
)

-- `Close`
pub close : Answers → Process → Process × List Failure
unfolding unwind
close a p = if p.app.closing || not p.owner then (p, []) else unwind a p

module _ (system : System) where
  -- What other goroutines do.
  lives : List Step → Process → Process
  lives ss p =
      let (a, es) = run_steps system p.app ss in record p { app = a; done = p.done ++ map did es }

  -- The end of `Start`, behind the start of the watcher.
  begin_serving : Answers → Process → Process × List Failure
  unfolding unwind
  begin_serving a p =
      if a.serves
      then (record p { presenter = true; done = p.done ++ started presenter_server ∷ [] }, [])
      else ((unwind a p).0, no_socket ∷ [])

  -- `Start`: `early` is what the watcher and the readers do before the socket is made.
  pub start : Answers → List Step → Process → Process × List Failure
  unfolding begin_serving lives
  start a early p =
      if p.owner
      then (p, already_started ∷ [])
      else if a.connects
      then begin_serving a (
          lives early (record p {
            owner = true;
            conn = true;
            watcher = true;
            app = record p.app { connected = true; closing = false };
            done = p.done ++ started state_owner ∷ started session_bus ∷ started watcher_loop ∷ [];
          }))
      else (
        record p { done = p.done ++ started state_owner ∷ stopped state_owner ∷ [] },
        no_bus ∷ [],
      )

  report : Bool → List Failure
  report failed = if failed then socket_failed ∷ [] else []

  served : Answers → List Step → Bool → Process × List Failure → Process × List Failure
  unfolding lives close report
  served a during failed (p, e ∷ es) = (p, e ∷ es)
  served a during failed (p, []) =
      let (p', es) = close a (lives during p) in (p', report failed ++ es)

  -- `Run`: `during` is what happens until the context ends or the socket of the presenter fails.
  pub run : Answers → List Step → List Step → Bool → Process → Process × List Failure
  unfolding served start
  run a early during failed p = served a during failed (start a early p)
