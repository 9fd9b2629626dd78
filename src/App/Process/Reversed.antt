-- ===== src/App/Process/Reversed.antt =====
-- internal/app/run.go: what `Run` leaves, and in what order the parts of the service come and go.
use mathlib.Core.List.{reverse, append_assoc}
use sysc_tray.Prelude.{
  ◌≡◌, ◌↔◌, refl, ap, ◌∙◌, arith, Bool, true, false, not, ◌&&◌, ◌||◌, List, [], ◌∷◌, ◌++◌, map,
  if◌then◌else◌, if_elim, All,
}
use sysc_tray.Ownership.{System}
use sysc_tray.App.{Effect}
use sysc_tray.App.Steps.{Step, new_app, run as run_steps}
use sysc_tray.App.Steps.Open.{StaysOpen, run-closing}
use sysc_tray.App.Process.{
  Part, state_owner, session_bus, watcher_loop, presenter_server, Entry, started, stopped, did,
  Failure, socket_failed, Process, new_process, Answers, when, parts, close_errors, unwind, close,
  lives, begin_serving, start, report, served, run,
}

pub parts_of : List Entry → List Entry
parts_of [] = []
parts_of (did e ∷ es) = parts_of es
parts_of (e ∷ es) = e ∷ parts_of es

parts_of-append : (xs ys : List Entry) → parts_of (xs ++ ys) ≡ parts_of xs ++ parts_of ys
unfolding parts_of
parts_of-append [] ys = refl
parts_of-append (did e ∷ xs) ys = parts_of-append xs ys
parts_of-append (started p ∷ xs) ys = ap (λ t. started p ∷ t) (parts_of-append xs ys)
parts_of-append (stopped p ∷ xs) ys = ap (λ t. stopped p ∷ t) (parts_of-append xs ys)

parts_of-did : (es : List Effect) → parts_of (map did es) ≡ []
unfolding parts_of
parts_of-did [] = refl
parts_of-did (e ∷ es) = parts_of-did es

-- Each Close call succeeds.
pub closes_well : Answers → Bool
closes_well a =
    not (a.fails_closing presenter_server)
    && (not (a.fails_closing session_bus) && not (a.fails_closing state_owner))

-- What is left of the service, and what was reported.
pub record IsDown (a : Answers) (failed : Bool) (p : Process) (es : List Failure) : Type 0 where
  pub order : (ps : List Part) × (parts_of p.done ≡ map started ps ++ map stopped (reverse ps))
  pub workers : p.app.workers ≡ []
  pub fields : (p.owner ≡ false) × (p.conn ≡ false) × (p.watcher ≡ false) × (p.presenter ≡ false)
  pub errors : (es ≡ []) ↔ ((a.connects && (a.serves && (not failed && closes_well a))) ≡ true)

clean : List Failure → Bool
clean [] = true
clean (e ∷ es) = false

-- The errors of a service that was up.
up_errors :
    (a : Answers) (failed : Bool)
    → clean (
        (if failed then socket_failed ∷ [] else [])
        ++ close_errors a (presenter_server ∷ watcher_loop ∷ session_bus ∷ state_owner ∷ []))
      ≡ (not failed && closes_well a)
unfolding close_errors closes_well clean
up_errors a true = refl
up_errors a false = ground arith

clean_iff : (es : List Failure) → (es ≡ []) ↔ (clean es ≡ true)
unfolding clean
clean_iff [] = (λ h. refl, λ h. refl)
clean_iff (e ∷ es) = (λ h. cc, λ h. cc)

skip_did : (es : List Effect) (xs : List Entry) → parts_of (map did es ++ xs) ≡ parts_of xs
skip_did es xs = parts_of-append (map did es) xs ∙ ap (λ t. t ++ parts_of xs) (parts_of-did es)

module _ (system : System) (a : Answers) (failed : Bool) where
  abbrev Down : Process × List Failure → Type 0
  Down x = IsDown a failed x.0 x.1

  up : List Step → Process
  up early =
      let x = run_steps system new_app early in
      record {
        owner = true;
        conn = true;
        watcher = true;
        presenter = true;
        app = x.0;
        done =
            started state_owner
            ∷ started session_bus
            ∷ started watcher_loop
            ∷ (map did x.1 ++ started presenter_server ∷ []);
      }

  close-Down :
      (early during : List Step)
      → All StaysOpen early
      → All StaysOpen during
      → a.connects ≡ true
      → a.serves ≡ true
      → Down (served system a during failed (up early, []))
  unfolding served close lives unwind report up parts when parts_of
  close-Down early during o o' connects serves =
      let x = run_steps system new_app early in
      let y = run_steps system x.0 during in
      let open_ : y.0.closing ≡ false =
        run-closing system x.0 during o' ∙ run-closing system new_app early o in
      if_elim
        (λ (t : Process × List Failure).
          IsDown a failed t.0 ((if failed then socket_failed ∷ [] else []) ++ t.1))
        (y.0.closing || false) _ _ (λ shut. absurd (ground arith))
        (λ on. record {
          order = (
            state_owner ∷ session_bus ∷ watcher_loop ∷ presenter_server ∷ [],
            simp (append_assoc, skip_did),
          );
          workers = refl;
          fields = (refl, refl, refl, refl);
          errors = ground (
            arith,
            up_errors a failed,
            clean_iff (
                (if failed then socket_failed ∷ [] else [])
                ++ close_errors a
                    (presenter_server ∷ watcher_loop ∷ session_bus ∷ state_owner ∷ [])),
          );
        })

  -- A new service that is run, whatever its goroutines do meanwhile but another Close: in the end every part
  -- that was started is stopped, once, the last one first; no reader is left; and no error is reported
  -- exactly if the bus was reached and the socket made, the socket did not fail and each part closed well.
  pub run-IsDown :
      (early during : List Step)
      → All StaysOpen early
      → All StaysOpen during
      → Down (run system a early during failed new_process)
  unfolding run start begin_serving unwind lives served when up parts_of
  run-IsDown early during o o' =
      let x = run_steps system new_app early in
      if_elim (λ t. Down (served system a during failed t)) a.connects _ _
        (λ connects.
          if_elim (λ t. Down (served system a during failed t)) a.serves _ _
            (λ serves. close-Down early during o o' connects serves)
            (λ deaf. record {
              order = (state_owner ∷ session_bus ∷ watcher_loop ∷ [], simp skip_did);
              workers = refl;
              fields = (refl, refl, refl, refl);
              errors = ground arith;
            }))
        (λ apart. record {
          order = (state_owner ∷ [], refl);
          workers = refl;
          fields = (refl, refl, refl, refl);
          errors = ground arith;
        })
