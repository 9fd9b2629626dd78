-- ===== src/App/Steps/Open.antt =====
-- internal/app/run.go: only Close makes the service close.
use sysc_tray.Prelude.{
  ℕ, ◌≡◌, refl, ◌∙◌, arith, Bool, List, [], ◌∷◌, Option, none, some, All, Text, Result, ok, err,
}
use sysc_tray.Protocol.Types.{ItemKey, Item}
use sysc_tray.Ownership.{System, Record}
use sysc_tray.Item.Proxy.{Loss}
use sysc_tray.Menu.Proxy.{Proxy as MenuProxy, Step as MenuStep, Told, run as menu_run}
use sysc_tray.App.{
  App, Worker, drop_worker, item_added, inspected, own_found, bind_menu, bind_found, bind_worker,
  on_item, on_read, on_menu, worker_of, Task, adding, keeping, starting, dropping, unwinding,
  stopping, disconnect, keep_worker, stop_workers, resume, take_task, resume_found,
}
use sysc_tray.App.Steps.{
  Step, adds, inspects, removes, reads, updates, menu_lives, closes, resumes, live_found, live_menu,
  relive, take_step, run as run_steps,
}

-- The step is not a Close of its own.
abbrev pub StaysOpen : Step → Type 0
StaysOpen closes = ⊥
StaysOpen s = Unit

own_found-closing :
    (a : App) (k : ItemKey) (n : ℕ) (r : Option Record) (w : Option Worker)
    → (own_found a k n r w).closing ≡ a.closing
unfolding own_found
own_found-closing a k n r none = refl
own_found-closing a k n r (some w) = ground arith

bind_found-closing :
    (a : App) (k : ItemKey) (t : Text) (b c : Bool) (w : Option Worker)
    → (bind_found a k t b c w).0.closing ≡ a.closing
unfolding bind_found bind_worker
bind_found-closing a k t b c none = refl
bind_found-closing a k t b c (some w) = ground arith

on_read-closing :
    (system : System) (a : App) (k : ItemKey) (r : Result Loss Item) (b c : Bool)
    → (on_read system a k r b c).0.closing ≡ a.closing
unfolding on_read bind_menu drop_worker
on_read-closing system a k (err e) b c = refl
on_read-closing system a k (ok i) b c =
    ground (arith, bind_found-closing a k i.menu_path b c (worker_of k a.workers))

relive-closing :
    (a : App) (k : ItemKey) (w : Worker) (o : Option Told) → (relive a k w o).closing ≡ a.closing
unfolding relive
relive-closing a k w none = refl
relive-closing a k w (some (m, us)) = refl

live_menu-closing :
    (a : App) (k : ItemKey) (ss : List MenuStep) (w : Worker) (m : Option MenuProxy)
    → (live_menu a k ss w m).closing ≡ a.closing
unfolding live_menu
live_menu-closing a k ss w none = refl
live_menu-closing a k ss w (some m) = relive-closing a k w (menu_run m ss)

live_found-closing :
    (a : App) (k : ItemKey) (ss : List MenuStep) (w : Option Worker)
    → (live_found a k ss w).closing ≡ a.closing
unfolding live_found
live_found-closing a k ss none = refl
live_found-closing a k ss (some w) = live_menu-closing a k ss w w.menu

drop_worker-closing : (a : App) (k : ItemKey) → (drop_worker a k).closing ≡ a.closing
unfolding drop_worker
drop_worker-closing a k = refl

item_added-closing : (a : App) (k : ItemKey) → (item_added a k).closing ≡ a.closing
unfolding item_added
item_added-closing a k = ground arith

resume-closing : (a : App) (t : Task) (starts : Bool) → (resume a t starts).0.closing ≡ a.closing
unfolding resume keep_worker stop_workers drop_worker disconnect
resume-closing a (adding k) starts = refl
resume-closing a (keeping k) starts = ground arith
resume-closing a (starting k) starts = ground arith
resume-closing a (dropping w k owned) starts = refl
resume-closing a unwinding starts = refl
resume-closing a stopping starts = refl

resume_found-closing :
    (a : App) (o : Option (Task × List Task)) (starts : Bool)
    → (resume_found a o starts).0.closing ≡ a.closing
unfolding resume_found
resume_found-closing a none starts = refl
resume_found-closing a (some found) starts =
    resume-closing (record a { under_way = found.1 }) found.0 starts

module _ (system : System) where
  take_step-closing :
      (a : App) (s : Step) → StaysOpen s → (take_step system a s).0.closing ≡ a.closing
  unfolding take_step inspected on_item on_menu
  take_step-closing a (adds k) o = item_added-closing a k
  take_step-closing a (inspects k n r) o = own_found-closing a k n r (worker_of k a.workers)
  take_step-closing a (removes k) o = drop_worker-closing a k
  take_step-closing a (reads r b c) o = on_read-closing system a r.key r.read b c
  take_step-closing a (updates u) o = refl
  take_step-closing a (menu_lives k ss) o = live_found-closing a k ss (worker_of k a.workers)
  take_step-closing a closes o = absurd o
  take_step-closing a (resumes n starts) o = resume_found-closing a (take_task n a.under_way) starts

  pub run-closing :
      (a : App) (ss : List Step) → All StaysOpen ss → (run_steps system a ss).0.closing ≡ a.closing
  unfolding run_steps
  run-closing a [] o = refl
  run-closing a (s ∷ ss) (o, os) =
      run-closing (take_step system a s).0 ss os ∙ take_step-closing a s o
