-- ===== src/State/Owner/Connected.antt =====
-- internal/state/owner.go: no operation but `Attach` connects a sink.
use sysc_tray.Prelude.{
  if_both, ℕ, ◌≡◌, inl, inr, true, ◌&&◌, List, [], ◌∷◌, some, arith, Option-cases,
}
use sysc_tray.Protocol.Types.{Kind, ItemKey, Item, Menu}
use sysc_tray.State.Maps.{Address, address_of, lookup, delete, remove_first}
use sysc_tray.State.Clone.{clone_item, clone_menu, deep_equal}
use sysc_tray.State.Owner.{
  Env, Entry, Owner, Payload, current, publish, retire, register, save, offer, add, update,
  update_menu, remove, submit,
}
use sysc_tray.State.Owner.Steps.{Call, adds, updates, updates_menu, removes, step, run}

-- Only `Attach` connects a sink: one that is connected after a call was so before.
module _ {W : Type 0} (env : Env W) (id : ℕ) where
  publish_connected :
      (kind : Kind) (p : Payload) (o : Owner) (w : W)
      → (publish env kind p o w).0.sink ≡ some id
      → o.sink ≡ some id
  unfolding publish
  publish_connected kind p o w h = ground arith

  retire_connected :
      (a : Address) (e : Entry) (o : Owner) (w : W)
      → (retire env a e o w).0.sink ≡ some id
      → o.sink ≡ some id
  unfolding retire
  retire_connected a e o w =
      if_both (λ (r : Owner × W). r.0.sink ≡ some id → o.sink ≡ some id) e.published _ _
        (publish_connected Kind.item_removed (Payload.removed (record { key = e.key }))
          (record o { items = delete a o.items; order = remove_first a o.order }) w)
        (λ h. h)

  add_connected :
      (k : ItemKey) (o : Owner) (w : W) → (add env k o w).0.sink ≡ some id → o.sink ≡ some id
  unfolding add register
  add_connected k o w h = elim (Option-cases (lookup (address_of k) o.items)) [
    | inl absent ↦ ground arith
    | inr (e, known) ↦ ground (arith, retire_connected (address_of k) e o w)
  ]

  offer_connected :
      (k : ItemKey) (e : Entry) (i : Item) (o : Owner) (w : W)
      → (offer env k e i o w).0.sink ≡ some id
      → o.sink ≡ some id
  unfolding offer save
  offer_connected k e i o w =
      if_both (λ (r : Owner × W). r.0.sink ≡ some id → o.sink ≡ some id)
        (e.published && (e.has_item && deep_equal e.item i)) _ _ (λ h. h)
        (publish_connected _ (Payload.item i)
          (save k (record e { item = i; has_item = true; published = true }) o) w)

  update_connected :
      (k : ItemKey) (raw : Item) (o : Owner) (w : W)
      → (update env k raw o w).0.sink ≡ some id
      → o.sink ≡ some id
  unfolding update
  update_connected k raw o w h = elim (Option-cases (current o k)) [
    | inl absent ↦ ground arith
    | inr (e, c) ↦ ground (arith, offer_connected k e (clone_item (record raw { key = k })) o w)
  ]

  update_menu_connected :
      (k : ItemKey) (m : Menu) (o : Owner) (w : W)
      → (update_menu env k m o w).0.sink ≡ some id
      → o.sink ≡ some id
  unfolding update_menu save
  update_menu_connected k m o w h = elim (Option-cases (current o k)) [
    | inl absent ↦ ground arith
    | inr (e, c) ↦ ground (
      arith,
      publish_connected Kind.menu_updated (Payload.menu (record { key = k; menu = clone_menu m }))
          (save k (record e { menu = clone_menu m; has_menu = true }) o) w,
    )
  ]

  remove_connected :
      (k : ItemKey) (o : Owner) (w : W) → (remove env k o w).0.sink ≡ some id → o.sink ≡ some id
  unfolding remove
  remove_connected k o w h = elim (Option-cases (current o k)) [
    | inl absent ↦ ground arith
    | inr (e, c) ↦ ground (arith, retire_connected (address_of k) e o w)
  ]

  submit_connected :
      (command : Owner → W → Owner × W) (o : Owner) (w : W)
      → ((command o w).0.sink ≡ some id → o.sink ≡ some id)
      → (submit command o w).0.sink ≡ some id
      → o.sink ≡ some id
  unfolding submit
  submit_connected command o w h =
      if_both (λ (r : Owner × W). r.0.sink ≡ some id → o.sink ≡ some id) o.stopped (o, w)
        (command o w) (λ k. k) h

  step_connected :
      (c : Call) (o : Owner) (w : W) → (step env c o w).0.sink ≡ some id → o.sink ≡ some id
  unfolding step
  step_connected (adds k) o w = submit_connected (add env k) o w (add_connected k o w)
  step_connected (updates k i) o w =
      submit_connected (update env k i) o w (update_connected k i o w)
  step_connected (updates_menu k m) o w =
      submit_connected (update_menu env k m) o w (update_menu_connected k m o w)
  step_connected (removes k) o w = submit_connected (remove env k) o w (remove_connected k o w)

  pub run_connected :
      (cs : List Call) (o : Owner) (w : W) → (run env cs o w).0.sink ≡ some id → o.sink ≡ some id
  unfolding run
  run_connected [] o w h = h
  run_connected (c ∷ cs) o w h =
      step_connected c o w (run_connected cs (step env c o w).0 (step env c o w).1 h)
