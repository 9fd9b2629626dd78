-- ===== src/State/Owner/Contract.antt =====
-- Every operation of the owner sends exactly what it changes for a presenter.
use sysc_tray.State.Owner.Connected.{run_connected}
use sysc_tray.Prelude.{
  if_both, ℕ, ◌≡◌, refl, ap, inl, inr, true, ◌&&◌, List, [], ◌∷◌, none, some, arith, is_ok, leb,
  length, Option-cases, Bool-cases,
}
use sysc_tray.Protocol.Types.{ItemKey, Item, Menu, max_items}
use sysc_tray.Protocol.Items.{validate_item}
use sysc_tray.Protocol.Menus.{validate_menu}
use sysc_tray.State.Maps.{Address, address_eq_iff, address_of, lookup, lookup-delete, lookup-put}
use sysc_tray.State.Clone.{clone_item, clone_item-eq, clone_menu, deep_equal}
use sysc_tray.State.Owner.{
  Env, Entry, Owner, Payload, Message, new_entry, current, retire, register, save, offer, add,
  update, update_menu, remove, submit,
}
use sysc_tray.State.Owner.Steps.{Call, adds, updates, updates_menu, removes, step, run}
use sysc_tray.State.Owner.Invariant.{IsOwner, current-lookup, step-IsOwner, retire-items}
use sysc_tray.State.Owner.Deltas.{
  view, shown, apply, IsRecorder, Delta, silent, Delta-trans, published, retire-Delta, view-put,
  view_absent,
}

-- A sink is connected before and after.
module _ {W : Type 0} (env : Env W) (received : ℕ → W → List Message)
    (records : IsRecorder env received) (id : ℕ) where
  register-view :
      (k : ItemKey) (o : Owner)
      → lookup (address_of k) o.items ≡ none
      → (a : Address) → view (register k o).items a ≡ view o.items a
  unfolding register shown
  register-view k o absent a = ground (
    arith,
    view-put (address_of k) (new_entry k) o.items a,
    view_absent (address_of k) o.items,
    address_eq_iff (address_of k) a,
  )

  register-Delta :
      (k : ItemKey) (o : Owner) (w : W)
      → lookup (address_of k) o.items ≡ none
      → Delta received id o w (register k o) w
  unfolding register
  register-Delta k o w absent =
      silent received id o (register k o) w refl (register-view k o absent)

  add-Delta :
      (k : ItemKey) (o : Owner) (w : W)
      → IsOwner o
      → o.sink ≡ some id
      → (add env k o w).0.sink ≡ some id
      → Delta received id o w (add env k o w).0 (add env k o w).1
  unfolding add
  add-Delta k o w t connected still = elim (Option-cases (lookup (address_of k) o.items)) [
    | inl absent ↦ elim (Bool-cases (leb max_items (length o.items))) [
      | inl full ↦ rw (absent, add, full) (silent received id o o w refl (λ a. refl))
      | inr room ↦ rw (absent, add, room) (register-Delta k o w absent)
    ]
    | inr (e, known) ↦ elim (Bool-cases (leb k.generation e.key.generation)) [
      | inl stale ↦ rw (known, add, stale) (silent received id o o w refl (λ a. refl))
      | inr fresh ↦
          rw (known, add, fresh)
            (Delta-trans received id
              (retire-Delta env received records id (address_of k) e o w
                (t.held (address_of k) e known).address known connected
                (rw (known, add, fresh) at still))
              (register-Delta k (retire env (address_of k) e o w).0
                (retire env (address_of k) e o w).1
                (ground (
                  arith,
                  retire-items env (address_of k) e o w,
                  lookup-delete (address_of k) (address_of k) o.items,
                  address_eq_iff (address_of k) (address_of k),
                ))))
    ]
  ]

  offer-Delta :
      (k : ItemKey) (e : Entry) (i : Item) (o : Owner) (w : W)
      → o.sink ≡ some id
      → address_of i.key ≡ address_of k
      → (offer env k e i o w).0.sink ≡ some id
      → Delta received id o w (offer env k e i o w).0 (offer env k e i o w).1
  unfolding offer save apply shown
  offer-Delta k e i o w connected at_k still =
      elim (Bool-cases (e.published && (e.has_item && deep_equal e.item i))) [
        | inl same ↦ rw (same, offer) (silent received id o o w refl (λ a. refl))
        | inr new ↦
            let e' = record e { item = i; has_item = true; published = true } in
            rw (new, offer)
              (published env received records id _ (Payload.item i) o (save k e' o) w connected refl
                (rw (new, offer) at still) (λ a. rw at_k (view-put (address_of k) e' o.items a)))
      ]

  update-Delta :
      (k : ItemKey) (raw : Item) (o : Owner) (w : W)
      → o.sink ≡ some id
      → (update env k raw o w).0.sink ≡ some id
      → Delta received id o w (update env k raw o w).0 (update env k raw o w).1
  unfolding update
  update-Delta k raw o w connected still = elim (Option-cases (current o k)) [
    | inl absent ↦ rw (absent, update) (silent received id o o w refl (λ a. refl))
    | inr (e, c) ↦ elim (Bool-cases (is_ok (validate_item env.visits (record raw { key = k })))) [
      | inl good ↦
          rw (c, update, good)
            (offer-Delta k e (clone_item (record raw { key = k })) o w connected
              (ap (λ (i : Item). address_of i.key) (clone_item-eq (record raw { key = k })))
              (rw (c, update, good) at still))
      | inr bad ↦ rw (c, update, bad) (silent received id o o w refl (λ a. refl))
    ]
  ]

  update_menu-Delta :
      (k : ItemKey) (m : Menu) (o : Owner) (w : W)
      → o.sink ≡ some id
      → (update_menu env k m o w).0.sink ≡ some id
      → Delta received id o w (update_menu env k m o w).0 (update_menu env k m o w).1
  unfolding update_menu save apply shown view
  update_menu-Delta k m o w connected still = elim (Option-cases (current o k)) [
    | inl absent ↦ rw (absent, update_menu) (silent received id o o w refl (λ a. refl))
    | inr (e, c) ↦ elim (Bool-cases (e.published && is_ok (validate_menu m))) [
      | inl good ↦
          let e' = record e { menu = clone_menu m; has_menu = true } in
          rw (c, update_menu, good)
            (published env received records id _ _ o (save k e' o) w connected refl
              (rw (c, update_menu, good) at still)
              (λ a. ground (
                arith,
                lookup-put (address_of k) a e' o.items,
                current-lookup o k e c,
                address_eq_iff (address_of k) a,
              )))
      | inr bad ↦ rw (c, update_menu, bad) (silent received id o o w refl (λ a. refl))
    ]
  ]

  remove-Delta :
      (k : ItemKey) (o : Owner) (w : W)
      → o.sink ≡ some id
      → (remove env k o w).0.sink ≡ some id
      → Delta received id o w (remove env k o w).0 (remove env k o w).1
  unfolding remove
  remove-Delta k o w connected still = elim (Option-cases (current o k)) [
    | inl absent ↦ rw (absent, remove) (silent received id o o w refl (λ a. refl))
    | inr (e, c) ↦
        rw (c, remove)
          (retire-Delta env received records id (address_of k) e o w
            (ap address_of (current-lookup o k e c).1) (current-lookup o k e c).0 connected
            (rw (c, remove) at still))
  ]

  submit-Delta :
      (command : Owner → W → Owner × W) (o : Owner) (w : W)
      → ((command o w).0.sink ≡ some id → Delta received id o w (command o w).0 (command o w).1)
      → (submit command o w).0.sink ≡ some id
      → Delta received id o w (submit command o w).0 (submit command o w).1
  unfolding submit
  submit-Delta command o w h =
      if_both (λ (r : Owner × W). r.0.sink ≡ some id → Delta received id o w r.0 r.1) o.stopped
        (o, w) (command o w) (λ _. silent received id o o w refl (λ a. refl)) h

  step-Delta :
      (c : Call) (o : Owner) (w : W)
      → IsOwner o
      → o.sink ≡ some id
      → (step env c o w).0.sink ≡ some id
      → Delta received id o w (step env c o w).0 (step env c o w).1
  unfolding step
  step-Delta (adds k) o w t connected = submit-Delta (add env k) o w (add-Delta k o w t connected)
  step-Delta (updates k i) o w t connected =
      submit-Delta (update env k i) o w (update-Delta k i o w connected)
  step-Delta (updates_menu k m) o w t connected =
      submit-Delta (update_menu env k m) o w (update_menu-Delta k m o w connected)
  step-Delta (removes k) o w t connected =
      submit-Delta (remove env k) o w (remove-Delta k o w connected)

  pub run-Delta :
      (cs : List Call) (o : Owner) (w : W)
      → IsOwner o
      → o.sink ≡ some id
      → (run env cs o w).0.sink ≡ some id
      → Delta received id o w (run env cs o w).0 (run env cs o w).1
  unfolding run
  run-Delta [] o w t connected still = silent received id o o w refl (λ a. refl)
  run-Delta (c ∷ cs) o w t connected still =
      let p = step env c o w in
      let middle = run_connected env id cs p.0 p.1 still in
      Delta-trans received id (step-Delta c o w t connected middle)
        (run-Delta cs p.0 p.1 (step-IsOwner env c o w t) middle still)
