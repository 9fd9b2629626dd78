-- ===== src/App/Steps/Serve/Backed.antt =====
-- internal/app/run.go with internal/state/owner.go: the items that presenters see have workers.
use sysc_tray.Prelude.{
  ◌≡◌, ◌⊎◌, refl, ◌∙◌, arith, true, false, List, [], ◌∷◌, some, All, Bool-cases, Option-cases, inl,
  inr,
}
use sysc_tray.Prelude.Shuffles.{Shuffle-sym, Shuffle-All}
use sysc_tray.Protocol.Types.{ItemKey}
use sysc_tray.Protocol.Fields.{key_eq_iff}
use sysc_tray.Ownership.{System}
use sysc_tray.State.Maps.{Address, lookup}
use sysc_tray.State.Clone.{clone_item, clone_item-eq}
use sysc_tray.State.Owner.{Env, Owner, start, published_items, snapshot, snapshot_locked}
use sysc_tray.State.Owner.Baseline.{sort_items-Shuffle}
use sysc_tray.State.Owner.Invariant.{IsOwner, run-IsOwner, handle_all-start-IsOwner}
use sysc_tray.State.Owner.Steps.{handle_all, run as run_calls}
use sysc_tray.State.Owner.Registered.{registered}
use sysc_tray.State.Owner.Registered.Calls.{run-stopped, run-registered}
use sysc_tray.App.{App, Worker, worker_of}
use sysc_tray.App.Steps.{Step, new_app, take_step, stop_due}
use sysc_tray.App.Steps.Serve.{calls_of, serve_all, Serves, awaited}
use sysc_tray.App.Steps.Serve.Quiet.{served, covered, has_worker}
use sysc_tray.App.Steps.Serve.Carried.{IsOpen, take_step-Carries}

module _ {W : Type 0} (env : Env W) (system : System) where
  serve_all-backed :
      (ss : List Step) (a : App) (o : Owner) (w : W) (j : ItemKey)
      → All Serves ss
      → IsOpen a
      → o.stopped ≡ false
      → (registered j o ≡ true → covered j a ≡ true)
      → let (a', o', w') = serve_all env system ss a o w in
        registered j o' ≡ true → covered j a' ≡ true
  unfolding serve_all
  serve_all-backed [] a o w j os on live f = f
  serve_all-backed (s ∷ ss) a o w j (q, qs) on live f =
      let d = take_step system a s in
      let p = run_calls env (calls_of d.1) o w in
      let c = take_step-Carries system a s on q in
      serve_all-backed ss d.0 p.0 p.1 j qs c.up (run-stopped env (calls_of d.1) o w ∙ live)
        (λ h. c.backed j (registered j o) f (run-registered env (calls_of d.1) j o w live h))

  serve_all-IsOwner :
      (ss : List Step) (a : App) (o : Owner) (w : W)
      → IsOwner o
      → IsOwner (serve_all env system ss a o w).1
  unfolding serve_all
  serve_all-IsOwner [] a o w t = t
  serve_all-IsOwner (s ∷ ss) a o w t =
      let d = take_step system a s in
      let p = run_calls env (calls_of d.1) o w in
      serve_all-IsOwner ss d.0 p.0 p.1 (run-IsOwner env (calls_of d.1) o w t)

-- What the owner shows of its keys, of a property of the keys that are registered.
published-registered :
    (P : ItemKey → Type 0) (o : Owner) (order : List Address)
    → IsOwner o
    → ((j : ItemKey) → registered j o ≡ true → P j)
    → All (λ i. P i.key) (published_items o order)
unfolding published_items registered
published-registered P o [] t f = tt
published-registered P o (a ∷ as') t f = elim (Option-cases (lookup a o.items)) [
  | inl absent ↦ rw (absent, published_items) (published-registered P o as' t f)
  | inr (e, known) ↦ elim (Bool-cases e.published) [
    | inl shown ↦
        let held = t.held a e known in
        rw (known, published_items, shown)
          (
            f (clone_item e.item).key (
                ground (
                  arith,
                  held.key,
                  held.address,
                  clone_item-eq e.item,
                  key_eq_iff e.key (clone_item e.item).key,
                )),
            published-registered P o as' t f,
          )
    | inr hidden ↦ rw (known, published_items, hidden) (published-registered P o as' t f)
  ]
]

-- A worker reads the item of the key.
abbrev pub HasWorker : App → ItemKey → Type 0
HasWorker a k = (v : Worker) × (worker_of k a.workers ≡ some v)

covered-HasWorker :
    (a : App) (k : ItemKey) → covered k a ≡ true → HasWorker a k ⊎ (awaited k a.under_way ≡ true)
unfolding covered served has_worker
covered-HasWorker a k h = elim (Option-cases (worker_of k a.workers)) [
  | inl absent ↦ inr (ground arith)
  | inr (v, there) ↦ inl (v, there)
]

new_app-IsOpen : IsOpen new_app
unfolding stop_due
new_app-IsOpen = record { connected = refl; closing = refl; idle = refl }

module _ {W : Type 0} (env : Env W) (system : System) where
  serve_all-stopped :
      (ss : List Step) (a : App) (o : Owner) (w : W)
      → (serve_all env system ss a o w).1.stopped ≡ o.stopped
  unfolding serve_all
  serve_all-stopped [] a o w = refl
  serve_all-stopped (s ∷ ss) a o w =
      let d = take_step system a s in
      let p = run_calls env (calls_of d.1) o w in
      serve_all-stopped ss d.0 p.0 p.1 ∙ run-stopped env (calls_of d.1) o w

  -- From a new service and a new owner, as long as the service does not close, whatever steps are taken and
  -- wherever a goroutine stands between its holds of the lock: every item of the owner's snapshot has a
  -- worker, or `ItemAdded` is about to keep the worker of its key, or `dropWorker` has taken it and is about
  -- to remove the item from the owner.
  pub serve_all-HasWorker :
      (ss : List Step) (w : W)
      → All Serves ss
      → let (a, o, w') = serve_all env system ss new_app start w in
        All (λ i. HasWorker a i.key ⊎ (awaited i.key a.under_way ≡ true)) (snapshot o).items
  unfolding snapshot snapshot_locked start registered lookup handle_all
  serve_all-HasWorker ss w os =
      let t = serve_all env system ss new_app start w in
      let P = λ (k : ItemKey). HasWorker t.0 k ⊎ (awaited k t.0.under_way ≡ true) in
      rw (serve_all-stopped ss new_app start w) (
        Shuffle-All (λ i. P i.key)
          (Shuffle-sym (sort_items-Shuffle (published_items t.1 t.1.order)))
          (published-registered P t.1 t.1.order
            (serve_all-IsOwner env system ss new_app start w (handle_all-start-IsOwner env [] w))
            (λ k h. covered-HasWorker t.0 k (
              serve_all-backed env system ss new_app start w k os new_app-IsOpen refl
                (λ known. ground arith) h))))
