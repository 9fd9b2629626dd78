-- ===== src/App/Steps.antt =====
-- The steps that the service of internal/app/run.go takes, and the workers that it keeps.
pub mod Kept
pub mod Open
pub mod Serve
use sysc_tray.Prelude.{
  ℕ, suc, ◌≡◌, refl, sym, ap, subst, ◌∙◌, arith, Bool, true, false, not, ◌&&◌, ◌||◌, ◌==◌, List, [],
  ◌∷◌, ◌++◌, map, Option, none, some, Text, text_eq, Result, ok, err, All, Distinct, Fresh,
  Bool-cases, if_elim, if_both, inl, inr,
}
use sysc_tray.Protocol.Types.{ItemKey, Item}
use sysc_tray.Protocol.Fields.{key_eq, key_eq_iff}
use sysc_tray.Ownership.{Record, System}
use sysc_tray.Item.Proxy.{Reading, Loss}
use sysc_tray.Menu.Proxy.{
  Proxy as MenuProxy, Update, Step as MenuStep, Told, started as menu_started, run as menu_run,
}
use sysc_tray.Menu.Proxy.Shown.{HasRun, started-HasRun, run-HasRun}
use sysc_tray.App.{
  Worker, App, Done, worker_of, without, put, new_worker, drop_worker, item_added, owned, own_found,
  inspected, bind_worker, bind_found, bind_menu, on_read, on_item, on_menu, close, Task, unwinding,
  stopping, take_task, resume_found,
}

-- `New` and `Start`.
abbrev pub new_app : App
new_app = record { workers = []; closing = false; connected = true; next = 0; under_way = [] }

pub data Step : Type 0 where
  adds : ItemKey → Step
  inspects : ItemKey → ℕ → Option Record → Step
  removes : ItemKey → Step
  reads : Reading → Bool → Bool → Step
  updates : Update → Step
  menu_lives : ItemKey → List MenuStep → Step
  closes : Step
  resumes : ℕ → Bool → Step

pub relive : App → ItemKey → Worker → Option Told → App
relive a k w none = a
relive a k w (some (m, us)) = put k (record w { menu = some m }) a

pub live_menu : App → ItemKey → List MenuStep → Worker → Option MenuProxy → App
unfolding relive
live_menu a k ss w none = a
live_menu a k ss w (some m) = relive a k w (menu_run m ss)

pub live_found : App → ItemKey → List MenuStep → Option Worker → App
unfolding live_menu
live_found a k ss none = a
live_found a k ss (some w) = live_menu a k ss w w.menu

module _ (system : System) where
  pub take_step : App → Step → Done
  unfolding live_found
  take_step a (adds k) = (item_added a k, [])
  take_step a (inspects k serial r) = (inspected a k serial r, [])
  take_step a (removes k) = (drop_worker a k, [])
  take_step a (reads r starts overtaken) = on_item system a r starts overtaken
  take_step a (updates u) = on_menu a u
  take_step a (menu_lives k ss) = (live_found a k ss (worker_of k a.workers), [])
  take_step a closes = (close a, [])
  take_step a (resumes n starts) = resume_found a (take_task n a.under_way) starts

  pub run : App → List Step → Done
  unfolding take_step
  run a [] = (a, [])
  run a (s ∷ ss) = let (a', es) = take_step a s in let (a'', fs) = run a' ss in (a'', es ++ fs)

-- The readers of a worker are of its key.
pub record IsWorker (k : ItemKey) (w : Worker) : Type 0 where
  pub key : w.key ≡ k
  pub item : w.item.key ≡ k
  pub menu : (m : MenuProxy) → w.menu ≡ some m → HasRun k m

abbrev pub IsWorkers : List (ItemKey × Worker) → Type 0
IsWorkers = All (λ (k, w). IsWorker k w)

unfoldable pub stops : Task → Bool
stops unwinding = true
stops stopping = true
stops t = false

-- `stopWorkers` is still to come.
unfoldable pub stop_due : List Task → Bool
unfolding stops
stop_due [] = false
stop_due (t ∷ ts) = stops t || stop_due ts

-- The readers of each worker are of its key, no key occurs twice, and a service that closes has none as soon
-- as `stopWorkers` is done.
pub record IsApp (a : App) : Type 0 where
  pub workers : IsWorkers a.workers
  pub keys : Distinct (map (λ (k, w). k) a.workers)
  pub closed : a.closing ≡ true → stop_due a.under_way ≡ false → a.workers ≡ []
