-- ===== src/App/Steps/Kept.antt =====
-- Why the workers of internal/app/run.go stay the right ones.
use sysc_tray.Prelude.{
  some_injective, option_clash, Option-cases, ℕ, zero, suc, true, ◌≡◌, refl, sym, ap, subst, ◌∙◌,
  arith, Bool, false, not, ◌&&◌, ◌||◌, ◌==◌, List, [], ◌∷◌, map, Option, none, some, Text, text_eq,
  Result, ok, err, Distinct, Fresh, Bool-cases, if_elim, if_both, inl, inr,
}
use sysc_tray.Protocol.Types.{ItemKey, Item}
use sysc_tray.Protocol.Fields.{key_eq, key_eq_iff}
use sysc_tray.Ownership.{Record, System}
use sysc_tray.Item.Proxy.{Reading, Loss}
use sysc_tray.Menu.Proxy.{
  Proxy as MenuProxy, Step as MenuStep, Told, started as menu_started, run as menu_run,
}
use sysc_tray.Menu.Proxy.Shown.{HasRun, started-HasRun, run-HasRun}
use sysc_tray.App.{
  Worker, App, Done, worker_of, without, put, new_worker, drop_worker, item_added, owned, own_found,
  inspected, bind_worker, bind_found, bind_menu, on_read, on_item, on_menu, close, Task, adding,
  keeping, starting, dropping, unwinding, stopping, disconnect, begin, keep_worker, stop_workers,
  resume, take_task, resume_found,
}
use sysc_tray.App.Steps.{
  Step, adds, inspects, removes, reads, updates, menu_lives, closes, relive, live_menu, live_found,
  resumes, stops, stop_due, take_step, run, IsWorker, IsWorkers, IsApp,
}

without-IsWorkers :
    (k : ItemKey) (ws : List (ItemKey × Worker)) → IsWorkers ws → IsWorkers (without k ws)
unfolding without
without-IsWorkers k [] h = tt
without-IsWorkers k ((j, w) ∷ ws) h = elim (Bool-cases (key_eq j k)) [
  | inl same ↦ rw same (without-IsWorkers k ws h.1)
  | inr other ↦ rw other (h.0, without-IsWorkers k ws h.1)
]

worker_of-IsWorker :
    (k : ItemKey) (ws : List (ItemKey × Worker)) (w : Worker)
    → IsWorkers ws
    → worker_of k ws ≡ some w
    → IsWorker k w
unfolding worker_of
worker_of-IsWorker k [] w h e = ground arith
worker_of-IsWorker k ((j, v) ∷ ws) w h e = elim (Bool-cases (key_eq j k)) [
  | inl same ↦
      subst (IsWorker k) (ground arith) (subst (λ i. IsWorker i v) ((key_eq_iff j k).0 same) h.0)
  | inr other ↦ worker_of-IsWorker k ws w h.1 (ground arith)
]

without-Fresh :
    (k j : ItemKey) (ws : List (ItemKey × Worker))
    → Fresh j (map (λ (i, w). i) ws)
    → Fresh j (map (λ (i, w). i) (without k ws))
unfolding without
without-Fresh k j [] h = tt
without-Fresh k j ((i, w) ∷ ws) h = elim (Bool-cases (key_eq i k)) [
  | inl same ↦ rw same (without-Fresh k j ws h.1)
  | inr other ↦ rw other (h.0, without-Fresh k j ws h.1)
]

without-Distinct :
    (k : ItemKey) (ws : List (ItemKey × Worker))
    → Distinct (map (λ (i, w). i) ws)
    → Distinct (map (λ (i, w). i) (without k ws))
unfolding without
without-Distinct k [] h = tt
without-Distinct k ((i, w) ∷ ws) h = elim (Bool-cases (key_eq i k)) [
  | inl same ↦ rw same (without-Distinct k ws h.1)
  | inr other ↦ rw other (without-Fresh k i ws h.0, without-Distinct k ws h.1)
]

without-free :
    (k : ItemKey) (ws : List (ItemKey × Worker)) → Fresh k (map (λ (i, w). i) (without k ws))
unfolding without
without-free k [] = tt
without-free k ((i, w) ∷ ws) = elim (Bool-cases (key_eq i k)) [
  | inl same ↦ rw same (without-free k ws)
  | inr other ↦ rw other (ground (arith, key_eq_iff i k), without-free k ws)
]

-- A worker may be put in place: `stopWorkers` is not done.
Going : App → Type 0
Going a = a.closing ≡ true → stop_due a.under_way ≡ false → ⊥

open-Going : (a : App) → a.closing ≡ false → Going a
unfolding Going
open-Going a going e due = ground arith

put-IsApp :
    (k : ItemKey) (w : Worker) (a : App) → Going a → IsWorker k w → IsApp a → IsApp (put k w a)
unfolding Going
put-IsApp k w a going worker h = record {
  workers = (worker, without-IsWorkers k a.workers h.workers);
  keys = (without-free k a.workers, without-Distinct k a.workers h.keys);
  closed = λ e due. absurd (going e due);
}

begin-IsApp : (t : Task) (a : App) → IsApp a → IsApp (begin t a)
unfolding stop_due
begin-IsApp t a h = record {
  workers = h.workers;
  keys = h.keys;
  closed = λ e due. h.closed e (ground arith);
}

drop_worker-IsApp : (k : ItemKey) (a : App) → IsApp a → IsApp (drop_worker a k)
unfolding drop_worker without
drop_worker-IsApp k a h =
    begin-IsApp (dropping (worker_of k a.workers) k a.connected)
      (record a { workers = without k a.workers })
      (record {
        workers = without-IsWorkers k a.workers h.workers;
        keys = without-Distinct k a.workers h.keys;
        closed = λ e due. subst (λ ws. without k ws ≡ []) (sym (h.closed e due)) refl;
      })

new_worker-IsWorker : (serial : ℕ) (k : ItemKey) → IsWorker k (new_worker serial k)
unfolding new_worker
new_worker-IsWorker serial k = record { key = refl; item = refl; menu = λ m e. ground arith }

IsDone : Done → Type 0
IsDone d = IsApp d.0

item_added-IsApp : (k : ItemKey) (a : App) → IsApp a → IsApp (item_added a k)
unfolding item_added
item_added-IsApp k a h =
    if_both IsApp (a.closing || not a.connected) _ _ h (begin-IsApp (adding k) a h)

keep_worker-IsApp : (k : ItemKey) (a : App) → IsApp a → IsApp (keep_worker a k)
unfolding keep_worker
keep_worker-IsApp k a h =
    if_elim IsApp a.closing _ _ (λ ending. h)
      (λ going.
        let g =
          put-IsApp k (new_worker a.next k) a (open-Going a going) (new_worker-IsWorker a.next k)
            h in
        begin-IsApp (starting k) (record (put k (new_worker a.next k) a) { next = suc a.next })
          (record { workers = g.workers; keys = g.keys; closed = g.closed }))

owned-IsWorker :
    (k : ItemKey) (w : Worker) (r : Option Record) → IsWorker k w → IsWorker k (owned w r)
unfolding owned
owned-IsWorker k w none h = record { key = h.key; item = h.item; menu = h.menu }
owned-IsWorker k w (some r) h = record { key = h.key; item = h.item; menu = h.menu }

inspected-IsApp :
    (k : ItemKey) (serial : ℕ) (r : Option Record) (a : App)
    → IsApp a
    → IsApp (inspected a k serial r)
unfolding inspected own_found
inspected-IsApp k serial r a h = go (worker_of k a.workers) refl
  where
    go : (o : Option Worker) → worker_of k a.workers ≡ o → IsApp (own_found a k serial r o)
    go none e = h
    go (some w) e =
        if_elim IsApp ((w.serial == serial) && not a.closing) _ _
          (λ ours.
            put-IsApp k (owned w r) a (open-Going a (ground arith))
              (owned-IsWorker k w r (worker_of-IsWorker k a.workers w h.workers e)) h)
          (λ other. h)

bare-IsWorker :
    (k : ItemKey) (path : Text) (w : Worker)
    → IsWorker k w
    → IsWorker k (record w { menu = none; menu_path = path })
bare-IsWorker k path w h = record { key = h.key; item = h.item; menu = λ m e. ground arith }

bound-IsWorker :
    (k : ItemKey) (path : Text) (w : Worker)
    → IsWorker k w
    → IsWorker k (record w { menu = some (menu_started k path); menu_path = path })
bound-IsWorker k path w h = record {
  key = h.key;
  item = h.item;
  menu = λ m e. subst (HasRun k) (some_injective e) (started-HasRun k path);
}

bind_worker-IsApp :
    (a : App) (k : ItemKey) (path : Text) (starts overtaken : Bool) (w : Worker)
    → Going a
    → IsWorker k w
    → IsApp a
    → IsApp (bind_worker a k path starts overtaken w).0
unfolding bind_worker IsDone
bind_worker-IsApp a k path starts overtaken w going worker h =
    let bare =
      put-IsApp k (record w { menu = none; menu_path = path }) a going
        (bare-IsWorker k path w worker) h in
    if_both IsDone (text_eq w.menu_path path) _ _ h (
      if_both IsDone (text_eq path [] || not (a.connected && starts)) _ _ bare (
        if_both IsDone overtaken _ _ bare (
          put-IsApp k (record w { menu = some (menu_started k path); menu_path = path }) a going
            (bound-IsWorker k path w worker) h)))

bind_menu-IsApp :
    (a : App) (k : ItemKey) (path : Text) (starts overtaken : Bool)
    → IsApp a
    → IsApp (bind_menu a k path starts overtaken).0
unfolding bind_menu bind_found IsDone
bind_menu-IsApp a k path starts overtaken h = go (worker_of k a.workers) refl
  where
    go :
        (o : Option Worker)
        → worker_of k a.workers ≡ o
        → IsApp (bind_found a k path starts overtaken o).0
    go none e = h
    go (some w) e =
        if_elim IsDone a.closing _ _ (λ ending. h)
          (λ going.
            bind_worker-IsApp a k path starts overtaken w (open-Going a going)
              (worker_of-IsWorker k a.workers w h.workers e) h)

on_item-IsApp :
    (system : System) (a : App) (r : Reading) (starts overtaken : Bool)
    → IsApp a
    → IsApp (on_item system a r starts overtaken).0
unfolding on_item on_read IsDone
on_item-IsApp system a r starts overtaken h = go r.read
  where
    go : (o : Result Loss Item) → IsApp (on_read system a r.key o starts overtaken).0
    go (err e) = drop_worker-IsApp r.key a h
    go (ok i) =
        if_both IsDone a.connected _ _ (bind_menu-IsApp a r.key i.menu_path starts overtaken h) h

worker-Going :
    (k : ItemKey) (a : App) (w : Worker) → IsApp a → worker_of k a.workers ≡ some w → Going a
unfolding worker_of Going
worker-Going k a w h there e due = option_clash (sym there ∙ ap (worker_of k) (h.closed e due))

live-IsApp :
    (a : App) (k : ItemKey) (ss : List MenuStep)
    → IsApp a
    → IsApp (live_found a k ss (worker_of k a.workers))
unfolding live_found live_menu relive
live-IsApp a k ss h = go (worker_of k a.workers) refl
  where
    moved :
        (w : Worker) (m : MenuProxy)
        → worker_of k a.workers ≡ some w
        → w.menu ≡ some m
        → (t : Option Told) → menu_run m ss ≡ t
        → IsApp (relive a k w t)
    moved w m e e' none ran = h
    moved w m e e' (some (m', us)) ran =
        let worker = worker_of-IsWorker k a.workers w h.workers e in
        put-IsApp k (record w { menu = some m' }) a (worker-Going k a w h e)
          (record {
            key = worker.key;
            item = worker.item;
            menu = λ n same.
                subst (HasRun k) (some_injective same)
                  (run-HasRun k m m' ss us (worker.menu m e') ran);
          })
          h

    menus :
        (w : Worker)
        → worker_of k a.workers ≡ some w
        → (m : Option MenuProxy) → w.menu ≡ m
        → IsApp (live_menu a k ss w m)
    menus w e none e' = h
    menus w e (some m) e' = moved w m e e' (menu_run m ss) refl

    go : (o : Option Worker) → worker_of k a.workers ≡ o → IsApp (live_found a k ss o)
    go none e = h
    go (some w) e = menus w e w.menu refl

close-IsApp : (a : App) → IsApp a → IsApp (close a)
unfolding close stop_due stops
close-IsApp a h =
    if_both IsApp (a.closing || not a.connected) _ _ h
      (record { workers = h.workers; keys = h.keys; closed = λ e due. absurd (ground arith) })

resume-IsApp :
    (a : App) (t : Task) (starts : Bool)
    → IsWorkers a.workers
    → Distinct (map (λ (k, w). k) a.workers)
    → (stops t ≡ false → IsApp a)
    → IsDone (resume a t starts)
unfolding IsDone resume stop_workers disconnect stops stop_due
resume-IsApp a (adding k) starts workers keys h = begin-IsApp (keeping k) a (h refl)
resume-IsApp a (keeping k) starts workers keys h = keep_worker-IsApp k a (h refl)
resume-IsApp a (starting k) starts workers keys h =
    if_both IsApp starts _ _ (h refl) (drop_worker-IsApp k a (h refl))
resume-IsApp a (dropping w k owned) starts workers keys h = h refl
resume-IsApp a unwinding starts workers keys h = record {
  workers = workers;
  keys = keys;
  closed = λ e due. absurd (ground arith);
}
resume-IsApp a stopping starts workers keys h = record {
  workers = tt;
  keys = tt;
  closed = λ e due. refl;
}

-- What is left is due if it was, but for the task that is taken.
take_task-due :
    (n : ℕ) (ts : List Task) (t : Task) (rest : List Task)
    → take_task n ts ≡ some (t, rest)
    → stops t ≡ false
    → stop_due rest ≡ false
    → stop_due ts ≡ false
unfolding take_task stop_due
take_task-due n [] t rest e quiet due = refl
take_task-due zero (u ∷ ts) t rest e quiet due = ground arith
take_task-due (suc n) (u ∷ ts) t rest e quiet due = elim (Option-cases (take_task n ts)) [
  | inl absent ↦ ground arith
  | inr (found, there) ↦ ground (arith, take_task-due n ts found.0 found.1)
]

resumes-IsApp :
    (a : App) (n : ℕ) (starts : Bool)
    → IsApp a
    → IsDone (resume_found a (take_task n a.under_way) starts)
unfolding IsDone resume_found
resumes-IsApp a n starts h = elim (Option-cases (take_task n a.under_way)) [
  | inl absent ↦ rw absent h
  | inr (found, there) ↦ rw there (
      resume-IsApp (record a { under_way = found.1 }) found.0 starts h.workers h.keys
        (λ quiet. record {
          workers = h.workers;
          keys = h.keys;
          closed =
              λ e due. h.closed e (take_task-due n a.under_way found.0 found.1 there quiet due);
        }))
]

module _ (system : System) where
  take_step-IsApp : (a : App) (s : Step) → IsApp a → IsApp (take_step system a s).0
  unfolding take_step on_menu IsDone
  take_step-IsApp a (adds k) h = item_added-IsApp k a h
  take_step-IsApp a (inspects k serial r) h = inspected-IsApp k serial r a h
  take_step-IsApp a (removes k) h = drop_worker-IsApp k a h
  take_step-IsApp a (reads r starts overtaken) h = on_item-IsApp system a r starts overtaken h
  take_step-IsApp a (updates u) h = h
  take_step-IsApp a (menu_lives k ss) h = live-IsApp a k ss h
  take_step-IsApp a closes h = close-IsApp a h
  take_step-IsApp a (resumes n starts) h = resumes-IsApp a n starts h

  -- From a service whose workers are right, whatever items come and go, whatever is read of them, in
  -- whatever order the steps are taken and the goroutines go on between their holds of the lock: the
  -- readers of each worker are of its key, no key has two workers, each menu reader has lived through
  -- the signals and replies of a reader, and once `stopWorkers` of a service that closes is done, no
  -- worker is left and none is made.
  pub run-IsApp : (a : App) (ss : List Step) → IsApp a → IsApp (run system a ss).0
  unfolding run
  run-IsApp a [] h = h
  run-IsApp a (s ∷ ss) h = run-IsApp (take_step system a s).0 ss (take_step-IsApp a s h)
