-- ===== src/App/Steps/Serve/Carried.antt =====
-- Why a step of internal/app/run.go keeps a worker for each key that its calls register.
use sysc_tray.Prelude.{
  if◌then◌else◌, ℕ, zero, suc, if_elim, ◌≡◌, refl, ap, subst, ◌∙◌, arith, Bool, true, false, not,
  ◌||◌, List, [], ◌∷◌, ◌++◌, Option, none, some, Result, ok, err, Bool-cases, Option-cases, if_both,
  inl, inr,
}
use sysc_tray.Protocol.Types.{ItemKey, Item, Menu}
use sysc_tray.Protocol.Fields.{key_eq}
use sysc_tray.Ownership.{System}
use sysc_tray.Item.Proxy.{Loss}
use sysc_tray.Menu.Proxy.{Loss as MenuLoss}
use sysc_tray.State.Owner.Steps.{Call}
use sysc_tray.State.Owner.Registered.Calls.{after, after_all}
use sysc_tray.App.{
  App, Worker, Effect, Done, menu_closing, menu_result, worker_of, new_worker, close_worker,
  close_found, drop_worker, item_added, inspected, bind_menu, on_read, on_item, on_menu, owner_add,
  owner_remove, owner_update, owner_update_menu, item_closed, menu_closed, Task, begin, adding,
  keeping, starting, dropping, unwinding, stopping, keep_worker, dropped, resume, resume_found,
  take_task,
}
use sysc_tray.App.Steps.{
  Step, adds, inspects, removes, reads, updates, menu_lives, closes, live_found, take_step, stops,
  stop_due, resumes,
}
use sysc_tray.App.Steps.Serve.{calls_of, Serves, waits, awaited}
use sysc_tray.App.Steps.Serve.Quiet.{
  served, covered, Quiet, none_done, own_found-Same, bind_found-Quiet, live_found-Same, put-served,
  served-without,
}

-- The service is up, and does not close.
pub record IsOpen (a : App) : Type 0 where
  pub connected : a.connected ≡ true
  pub closing : a.closing ≡ false
  pub idle : stop_due a.under_way ≡ false

-- A key that is registered after the step and its calls is covered then, if it was before when it was
-- registered before.
pub record Carries (before : ItemKey → Bool) (d : Done) : Type 0 where
  pub up : IsOpen d.0
  pub backed :
      (j : ItemKey) (r : Bool)
      → (r ≡ true → before j ≡ true)
      → after_all (calls_of d.1) j r ≡ true
      → covered j d.0 ≡ true

abbrev cover : App → ItemKey → Bool
cover a j = covered j a

Quiet-Carries : (a : App) (d : Done) → IsOpen a → Quiet a d → Carries (cover a) d
unfolding after_all covered
Quiet-Carries a d on q = record {
  up = record {
    connected = q.same.connected ∙ on.connected;
    closing = q.same.closing ∙ on.closing;
    idle = ap stop_due q.same.tasks ∙ on.idle;
  };
  backed = λ j r f h.
      let was : covered j a ≡ true = f (subst (λ cs. after_all cs j r ≡ true) q.calls h) in
      ground (arith, was, q.same.keeps j, ap (awaited j) q.same.tasks);
}

close_found-none : (w : Option Worker) → calls_of (close_found w) ≡ []
unfolding close_found close_worker menu_closing calls_of
close_found-none none = refl
close_found-none (some w) = elim (Option-cases w.menu) [
  | inl absent ↦ rw absent refl
  | inr (m, there) ↦ rw there refl
]

calls_of-append : (es fs : List Effect) → calls_of es ≡ [] → calls_of (es ++ fs) ≡ calls_of fs
unfolding calls_of
calls_of-append [] fs h = refl
calls_of-append (owner_add k ∷ es) fs h = ground arith
calls_of-append (owner_remove k ∷ es) fs h = ground arith
calls_of-append (owner_update k i ∷ es) fs h = ground arith
calls_of-append (owner_update_menu k m ∷ es) fs h = ground arith
calls_of-append (item_closed n ∷ es) fs h = calls_of-append es fs h
calls_of-append (menu_closed m ∷ es) fs h = calls_of-append es fs h

dropped-calls :
    (w : Option Worker) (k : ItemKey) (owned : Bool)
    → calls_of (dropped w k owned) ≡ (if owned then Call.removes k ∷ [] else [])
unfolding dropped calls_of
dropped-calls w k true = calls_of-append (close_found w) (owner_remove k ∷ []) (close_found-none w)
dropped-calls w k false = calls_of-append (close_found w) [] (close_found-none w)

drop_worker-Carries : (a : App) (k : ItemKey) → IsOpen a → Carries (cover a) (drop_worker a k, [])
unfolding drop_worker after_all calls_of covered served awaited waits stop_due stops
drop_worker-Carries a k on = record {
  up = record { connected = on.connected; closing = on.closing; idle = on.idle };
  backed = λ j r f h. ground (arith, f h, on.connected, served-without k j a.workers);
}

-- A task that is resumed, behind the other tasks.
resume-Carries :
    (a : App) (t : Task) (starts : Bool)
    → IsOpen a
    → stops t ≡ false
    → Carries (λ j. covered j a || waits j t) (resume a t starts)
unfolding resume keep_worker after_all after calls_of covered served awaited waits stop_due stops
resume-Carries a (adding k) starts on quiet = record {
  up = record { connected = on.connected; closing = on.closing; idle = on.idle };
  backed = λ j r f h. ground (arith, f);
}
resume-Carries a (keeping k) starts on quiet =
    if_elim (λ x. Carries (λ j. covered j a || key_eq k j) (x, [])) a.closing _ _
      (λ ending. absurd (ground (arith, on.closing)))
      (λ going. record {
        up = record { connected = on.connected; closing = on.closing; idle = on.idle };
        backed = λ j r f h. ground (arith, f h, put-served k j (new_worker a.next k) a);
      })
resume-Carries a (starting k) starts on quiet =
    if_both (λ x. Carries (λ j. covered j a || false) (x, [])) starts _ _
      (record { up = on; backed = λ j r f h. ground (arith, f h) })
      (let d = drop_worker-Carries a k on in
        record { up = d.up; backed = λ j r f h. d.backed j r (λ e. ground (arith, f e)) h })
resume-Carries a (dropping w k owned) starts on quiet = record {
  up = record { connected = on.connected; closing = on.closing; idle = on.idle };
  backed = λ j r f h.
      let g = subst (λ cs. after_all cs j r ≡ true) (dropped-calls w k owned) h in
      ground (arith, f);
}
resume-Carries a unwinding starts on quiet = absurd (ground arith)
resume-Carries a stopping starts on quiet = absurd (ground arith)

menu_result-after :
    (a : App) (k : ItemKey) (m : Result MenuLoss Menu) (j : ItemKey) (r : Bool)
    → after_all (calls_of (menu_result a k m)) j r ≡ true
    → r ≡ true
unfolding menu_result calls_of after_all after
menu_result-after a k (err e) j r h = h
menu_result-after a k (ok m) j r h = elim (Bool-cases a.connected) [
  | inl on ↦ ground arith
  | inr off ↦ ground arith
]

module _ (system : System) where
  on_read-Carries :
      (a : App) (k : ItemKey) (r : Result Loss Item) (b c : Bool)
      → IsOpen a
      → Carries (cover a) (on_read system a k r b c)
  unfolding on_read bind_menu calls_of after_all after
  on_read-Carries a k (err e) b c on = drop_worker-Carries a k on
  on_read-Carries a k (ok i) b c on =
      let bound =
        Quiet-Carries a (bind_menu a k i.menu_path b c) on
          (bind_found-Quiet a k i.menu_path b c (worker_of k a.workers)) in
      if_both (Carries (cover a)) a.connected _ _ (record { up = bound.up; backed = bound.backed })
        (Quiet-Carries a (a, []) on (none_done a))

  take_task-Carries :
      (n : ℕ) (ts : List Task) (t : Task) (rest : List Task)
      → take_task n ts ≡ some (t, rest)
      → stop_due ts ≡ false
      → (stops t ≡ false)
        × (stop_due rest ≡ false)
        × ((j : ItemKey) → awaited j ts ≡ true → (awaited j rest || waits j t) ≡ true)
  unfolding take_task stop_due awaited
  take_task-Carries n [] t rest e due = ground arith
  take_task-Carries zero (u ∷ ts) t rest e due = (ground arith, ground arith, λ j h. ground arith)
  take_task-Carries (suc n) (u ∷ ts) t rest e due = elim (Option-cases (take_task n ts)) [
    | inl absent ↦ ground arith
    | inr (found, there) ↦
        let (quiet, others, kept) = take_task-Carries n ts found.0 found.1 there (ground arith) in
        (ground arith, ground arith, λ j h. ground (arith, kept j))
  ]

  resumes-Carries :
      (a : App) (n : ℕ) (starts : Bool)
      → IsOpen a
      → Carries (cover a) (resume_found a (take_task n a.under_way) starts)
  unfolding resume_found covered served
  resumes-Carries a n starts on = elim (Option-cases (take_task n a.under_way)) [
    | inl absent ↦ rw absent (Quiet-Carries a (a, []) on (none_done a))
    | inr (found, there) ↦
        let (quiet, others, kept) = take_task-Carries n a.under_way found.0 found.1 there on.idle in
        let c =
          resume-Carries (record a { under_way = found.1 }) found.0 starts
            (record { connected = on.connected; closing = on.closing; idle = others }) quiet in
        rw there (record {
          up = c.up;
          backed = λ j r f h. c.backed j r (λ e. ground (arith, f e, kept j)) h;
        })
  ]

  item_added-Carries : (a : App) (k : ItemKey) → IsOpen a → Carries (cover a) (item_added a k, [])
  unfolding item_added after_all calls_of covered served awaited waits stop_due stops
  item_added-Carries a k on =
      if_both (λ x. Carries (cover a) (x, [])) (a.closing || not a.connected) a (begin (adding k) a)
        (record { up = on; backed = λ j r f h. f h })
        (record {
          up = record { connected = on.connected; closing = on.closing; idle = on.idle };
          backed = λ j r f h. f h;
        })

  pub take_step-Carries :
      (a : App) (s : Step) → IsOpen a → Serves s → Carries (cover a) (take_step system a s)
  unfolding take_step inspected on_item on_menu calls_of after_all after covered
  take_step-Carries a (adds k) on o = item_added-Carries a k on
  take_step-Carries a (inspects k n r) on o =
      Quiet-Carries a (inspected a k n r, []) on
        (record { same = own_found-Same a k n r (worker_of k a.workers); calls = refl })
  take_step-Carries a (removes k) on o = drop_worker-Carries a k on
  take_step-Carries a (reads r b c) on o = on_read-Carries a r.key r.read b c on
  take_step-Carries a (updates u) on o = record {
    up = on;
    backed = λ j r f h. f (menu_result-after a u.key u.menu j r h);
  }
  take_step-Carries a (menu_lives k ss) on o =
      Quiet-Carries a (live_found a k ss (worker_of k a.workers), []) on
        (record { same = live_found-Same a k ss (worker_of k a.workers); calls = refl })
  take_step-Carries a (resumes n starts) on o = resumes-Carries a n starts on
  take_step-Carries a closes on o = absurd o
