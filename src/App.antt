-- ===== src/App.antt =====
-- internal/app/run.go: the items that the service reads, and what it does for them. A step is one hold of
-- the lock `mu`, or what a goroutine does between two holds; a goroutine that has more to do is a task
-- that is under way until a later step resumes it, if it ever does. What is done outside, to the state
-- owner and to the readers, is a list, in order. `connected` says that the bus and the state owner are there, which
-- `unwind` takes away together. A worker has a serial number, which stands for its address.
pub mod Steps
pub mod Commands
pub mod Terminate
pub mod Process
use sysc_tray.Prelude.{
  ℕ, zero, suc, ◌+◌, Bool, true, false, not, ◌&&◌, ◌||◌, ◌==◌, List, [], ◌∷◌, ◌++◌, Option, none,
  some, if◌then◌else◌, Text, text_eq, Result, ok, err,
}
use sysc_tray.Protocol.Types.{ItemKey, Item, Menu}
use sysc_tray.Protocol.Fields.{key_eq}
use sysc_tray.Ownership.{Record, System, same_user}
use sysc_tray.Item.Proxy.{Proxy as ItemProxy, Loss, Reading, started as item_started, trigger}
use sysc_tray.Menu.Proxy.{Proxy as MenuProxy, Loss as MenuLoss, Update, started as menu_started}

pub record Worker : Type 0 where
  pub serial : ℕ
  pub key : ItemKey
  pub item : ItemProxy
  pub menu : Option MenuProxy
  pub menu_path : Text
  pub own : Option Record

-- What a goroutine does next: call `owner.Add`, keep a new worker, start its reader, close the worker that
-- `dropWorker` found and call `owner.Remove` if there was an owner, take the fields of the service away in
-- `unwind`, or stop the workers.
pub data Task : Type 0 where
  adding keeping starting : ItemKey → Task
  dropping : Option Worker → ItemKey → Bool → Task
  unwinding stopping : Task

pub record App : Type 0 where
  pub workers : List (ItemKey × Worker)
  pub closing : Bool
  pub connected : Bool
  pub next : ℕ
  pub under_way : List Task

-- The calls of the state owner, and the readers that are closed.
pub data Effect : Type 0 where
  owner_add owner_remove : ItemKey → Effect
  owner_update : ItemKey → Item → Effect
  owner_update_menu : ItemKey → Menu → Effect
  item_closed : ℕ → Effect
  menu_closed : MenuProxy → Effect

abbrev pub Done : Type 0
Done = App × List Effect

-- `a.workers[key]`
unfoldable pub worker_of : ItemKey → List (ItemKey × Worker) → Option Worker
worker_of k [] = none
worker_of k ((j, w) ∷ ws) = if key_eq j k then some w else worker_of k ws

unfoldable pub without : ItemKey → List (ItemKey × Worker) → List (ItemKey × Worker)
without k [] = []
without k ((j, w) ∷ ws) = let rest = without k ws in if key_eq j k then rest else (j, w) ∷ rest

abbrev pub put : ItemKey → Worker → App → App
put k w a = record a { workers = (k, w) ∷ without k a.workers }

unfoldable pub menu_closing : Option MenuProxy → List Effect
menu_closing none = []
menu_closing (some m) = menu_closed m ∷ []

-- `closeWorker`
unfoldable pub close_worker : Worker → List Effect
unfolding menu_closing
close_worker w = menu_closing w.menu ++ item_closed w.serial ∷ []

unfoldable pub close_found : Option Worker → List Effect
unfolding close_worker
close_found none = []
close_found (some w) = close_worker w

abbrev pub begin : Task → App → App
begin t a = record a { under_way = t ∷ a.under_way }

-- `dropWorker` up to the release of the lock.
unfoldable pub drop_worker : App → ItemKey → App
drop_worker a k =
    begin (dropping (worker_of k a.workers) k a.connected)
      (record a { workers = without k a.workers })

-- The end of `dropWorker`.
unfoldable pub dropped : Option Worker → ItemKey → Bool → List Effect
unfolding close_found
dropped w k owned = close_found w ++ (if owned then owner_remove k ∷ [] else [])

new_worker : ℕ → ItemKey → Worker
new_worker serial k = record {
  serial = serial;
  key = k;
  item = item_started k;
  menu = none;
  menu_path = [];
  own = none;
}

-- `ItemAdded` up to the first release of the lock.
unfoldable pub item_added : App → ItemKey → App
item_added a k = if a.closing || not a.connected then a else begin (adding k) a

-- The second hold of the lock in `ItemAdded`.
unfoldable pub keep_worker : App → ItemKey → App
unfolding new_worker
keep_worker a k =
    if a.closing
    then a
    else begin (starting k) (record (put k (new_worker a.next k) a) { next = suc a.next })

owned : Worker → Option Record → Worker
unfolding trigger
owned w none = record w { own = none }
owned w (some r) = record w { own = some r; item = trigger w.item }

pub own_found : App → ItemKey → ℕ → Option Record → Option Worker → App
unfolding owned
own_found a k serial r none = a
own_found a k serial r (some w) =
    if (w.serial == serial) && not a.closing then put k (owned w r) a else a

-- The end of `inspectOwnership`, whose inspection gave `r`.
pub inspected : App → ItemKey → ℕ → Option Record → App
unfolding own_found
inspected a k serial r = own_found a k serial r (worker_of k a.workers)

-- The end of `bindMenu`: `overtaken` says that the worker or its path changed while the reader started.
bind_worker : App → ItemKey → Text → Bool → Bool → Worker → Done
unfolding menu_closing
bind_worker a k path starts overtaken w =
    let bare = record w { menu = none; menu_path = path } in
    let reader = menu_started k path in
    if text_eq w.menu_path path
    then (a, [])
    else if text_eq path [] || not (a.connected && starts)
    then (put k bare a, menu_closing w.menu)
    else if overtaken
    then (put k bare a, menu_closing w.menu ++ menu_closed reader ∷ [])
    else (put k (record w { menu = some reader; menu_path = path }) a, menu_closing w.menu)

pub bind_found : App → ItemKey → Text → Bool → Bool → Option Worker → Done
unfolding bind_worker
bind_found a k path starts overtaken none = (a, [])
bind_found a k path starts overtaken (some w) =
    if a.closing then (a, []) else bind_worker a k path starts overtaken w

-- `bindMenu`
pub bind_menu : App → ItemKey → Text → Bool → Bool → Done
unfolding bind_found
bind_menu a k path starts overtaken = bind_found a k path starts overtaken (worker_of k a.workers)

module _ (system : System) where
  -- `closeable`
  pub closeable : Worker → Bool
  closeable w = elim w.own [ none ↦ false | some r ↦ same_user system r ]

  offered : Option Worker → Item → Item
  unfolding closeable
  offered none i = i
  offered (some w) i = if closeable w then record i { close_supported = true } else i

  -- `onItem`. A reading that failed drops the worker, from a goroutine of its own.
  on_read : App → ItemKey → Result Loss Item → Bool → Bool → Done
  unfolding offered bind_menu drop_worker
  on_read a k (err e) starts overtaken = (drop_worker a k, [])
  on_read a k (ok i) starts overtaken =
      let (a', es) = bind_menu a k i.menu_path starts overtaken in
      if a.connected then (a', owner_update k (offered (worker_of k a.workers) i) ∷ es) else (a, [])

  pub on_item : App → Reading → Bool → Bool → Done
  unfolding on_read
  on_item a r = on_read a r.key r.read

unfoldable pub menu_result : App → ItemKey → Result MenuLoss Menu → List Effect
menu_result a k (err e) = []
menu_result a k (ok m) = if a.connected then owner_update_menu k m ∷ [] else []

-- `onMenu`
pub on_menu : App → Update → Done
unfolding menu_result
on_menu a u = (a, menu_result a u.key u.menu)

close_all : List (ItemKey × Worker) → List Effect
unfolding close_worker
close_all [] = []
close_all ((k, w) ∷ ws) = close_worker w ++ close_all ws

-- `Close` up to the release of the lock.
unfoldable pub close : App → App
close a = if a.closing || not a.connected then a else begin unwinding (record a { closing = true })

-- `unwind` up to the release of the lock, of a service that `Close` has marked as closing; `server.Close`,
-- which is next, may not return.
unfoldable pub disconnect : App → App
disconnect a = begin stopping (record a { connected = false })

-- `stopWorkers`
unfoldable pub stop_workers : App → Done
unfolding close_all
stop_workers a = (record a { workers = [] }, close_all a.workers)

-- What a task does next; `starts` says whether a reader could be started.
unfoldable pub resume : App → Task → Bool → Done
unfolding keep_worker drop_worker dropped disconnect stop_workers
resume a (adding k) starts = (begin (keeping k) a, owner_add k ∷ [])
resume a (keeping k) starts = (keep_worker a k, [])
resume a (starting k) starts = (if starts then a else drop_worker a k, [])
resume a (dropping w k owned) starts = (a, dropped w k owned)
resume a unwinding starts = (disconnect a, [])
resume a stopping starts = stop_workers a

-- The task at a place, and the others.
unfoldable pub take_task : ℕ → List Task → Option (Task × List Task)
take_task n [] = none
take_task zero (t ∷ ts) = some (t, ts)
take_task (suc n) (t ∷ ts) = elim (take_task n ts) [
  | none ↦ none
  | some found ↦ some (found.0, t ∷ found.1)
]

unfoldable pub resume_found : App → Option (Task × List Task) → Bool → Done
unfolding resume
resume_found a none starts = (a, [])
resume_found a (some found) starts = resume (record a { under_way = found.1 }) found.0 starts
