-- ===== src/State/Owner/Invariant.antt =====
-- Whatever is asked of the owner, its map and its order stay a table.
use sysc_tray.Prelude.{
  &&_iff, if_both, contains, leb, ap, sym, inl, inr, Option-cases, Bool-cases, ◌<◌, ◌≡◌, refl, true,
  ◌&&◌, List, [], ◌∷◌, Option, none, some, arith, is_ok, is_ok_iff, length,
}
use sysc_tray.Protocol.Types.{Kind, ItemKey, Item, Menu, max_items}
use sysc_tray.Protocol.Fields.{key_eq_iff}
use sysc_tray.Protocol.Items.{validate_item, validate_item_iff}
use sysc_tray.Protocol.Messages.{is_some}
use sysc_tray.Protocol.Menus.{validate_menu}
use sysc_tray.State.Maps.{
  Address, address_eq_iff, address_of, lookup, lookup-delete, delete, remove_first,
  length-delete_known,
}
use sysc_tray.State.Clone.{clone_item, clone_item-eq, clone_menu-eq, deep_equal}
use sysc_tray.State.Table.{IsTable, IsHeld, IsTable-delete, IsTable-insert, IsTable-save}
use sysc_tray.State.Owner.{
  Env, Entry, Owner, Payload, start, new_entry, current, publish, retire, register, save, offer,
  add, update, update_menu, remove, attach, detach, close, submit,
}
use sysc_tray.State.Owner.Steps.{
  Call, adds, updates, updates_menu, removes, step, run, Event, calls, attaches, detaches, closes,
  handle, handle_all, publish-items, publish-order,
}

abbrev pub IsOwner : Owner → Type 0
IsOwner o = IsTable o.items o.order

new_entry-IsHeld : (k : ItemKey) → IsHeld (address_of k) (new_entry k)
new_entry-IsHeld k = ground arith

pub current-lookup :
    (o : Owner) (k : ItemKey) (e : Entry)
    → current o k ≡ some e
    → (lookup (address_of k) o.items ≡ some e) × (e.key ≡ k)
unfolding current
current-lookup o k e h = ground (arith, key_eq_iff e.key k, ap (λ (x : Option Entry). is_some x) h)

module _ {W : Type 0} (env : Env W) where
  publish-IsOwner :
      (kind : Kind) (p : Payload) (o : Owner) (w : W)
      → IsOwner o
      → IsOwner (publish env kind p o w).0
  publish-IsOwner kind p o w t = rw (publish-items env kind p o w, publish-order env kind p o w) t

  pub retire-items :
      (a : Address) (e : Entry) (o : Owner) (w : W)
      → (retire env a e o w).0.items ≡ delete a o.items
  unfolding retire
  retire-items a e o w = ground (
    arith,
    publish-items env Kind.item_removed (Payload.removed (record { key = e.key }))
        (record o { items = delete a o.items; order = remove_first a o.order }) w,
  )

  pub retire-order :
      (a : Address) (e : Entry) (o : Owner) (w : W)
      → (retire env a e o w).0.order ≡ remove_first a o.order
  unfolding retire
  retire-order a e o w = ground (
    arith,
    publish-order env Kind.item_removed (Payload.removed (record { key = e.key }))
        (record o { items = delete a o.items; order = remove_first a o.order }) w,
  )

  retire-IsOwner :
      (a : Address) (e : Entry) (o : Owner) (w : W) → IsOwner o → IsOwner (retire env a e o w).0
  retire-IsOwner a e o w t =
      rw (retire-items a e o w, retire-order a e o w) (IsTable-delete a o.items o.order t)

  register-IsOwner :
      (k : ItemKey) (o : Owner)
      → IsOwner o
      → lookup (address_of k) o.items ≡ none
      → length o.items < max_items
      → IsOwner (register k o)
  unfolding register
  register-IsOwner k o t absent room =
      IsTable-insert (address_of k) (new_entry k) o.items o.order t absent room (new_entry-IsHeld k)

  add-IsOwner : (k : ItemKey) (o : Owner) (w : W) → IsOwner o → IsOwner (add env k o w).0
  unfolding add
  add-IsOwner k o w t = elim (Option-cases (lookup (address_of k) o.items)) [
    | inl absent ↦ elim (Bool-cases (leb max_items (length o.items))) [
      | inl full ↦ rw (absent, add, full) t
      | inr room ↦ rw (absent, add, room) (register-IsOwner k o t absent (ground arith))
    ]
    | inr (e, known) ↦ elim (Bool-cases (leb k.generation e.key.generation)) [
      | inl stale ↦ rw (known, add, stale) t
      | inr fresh ↦
          rw (known, add, fresh)
            (register-IsOwner k (retire env (address_of k) e o w).0
              (retire-IsOwner (address_of k) e o w t)
              (ground (
                arith,
                retire-items (address_of k) e o w,
                lookup-delete (address_of k) (address_of k) o.items,
                address_eq_iff (address_of k) (address_of k),
              ))
              (rw (retire-items (address_of k) e o w)
                (omega (arith, length-delete_known (address_of k) e o.items known, t.few))))
    ]
  ]

  -- A write through a current entry keeps the table, whatever is published with it.
  save-IsOwner :
      (k : ItemKey) (old e : Entry) (o : Owner) (kind : Kind) (p : Payload) (w : W)
      → IsOwner o
      → current o k ≡ some old
      → IsHeld (address_of k) e
      → IsOwner (publish env kind p (save k e o) w).0
  unfolding save
  save-IsOwner k old e o kind p w t c h =
      publish-IsOwner kind p (save k e o) w
        (IsTable-save (address_of k) old e o.items o.order t (current-lookup o k old c).0 h)

  updated-IsHeld :
      (k : ItemKey) (raw : Item) (e : Entry) (o : Owner)
      → IsOwner o
      → current o k ≡ some e
      → is_ok (validate_item env.visits (record raw { key = k })) ≡ true
      → IsHeld (address_of k) (record e {
        item = clone_item (record raw { key = k });
        has_item = true;
        published = true;
      })
  updated-IsHeld k raw e o t c good =
      let i : Item = record raw { key = k } in
      let held = t.held (address_of k) e (current-lookup o k e c).0 in
      rw (clone_item-eq i) (record {
        address = held.address;
        complete = refl;
        valid = λ _.
            (validate_item_iff env.visits i).0 ((is_ok_iff (validate_item env.visits i)).0 good);
        key = λ _. sym (current-lookup o k e c).1;
        menu_live = λ _. refl;
        menu_valid = held.menu_valid;
      })

  offer-IsOwner :
      (k : ItemKey) (e : Entry) (i : Item) (o : Owner) (w : W)
      → IsOwner o
      → current o k ≡ some e
      → IsHeld (address_of k) (record e { item = i; has_item = true; published = true })
      → IsOwner (offer env k e i o w).0
  unfolding offer
  offer-IsOwner k e i o w t c h =
      elim (Bool-cases (e.published && (e.has_item && deep_equal e.item i))) [
        | inl same ↦ rw (same, offer) t
        | inr new ↦ rw (new, offer) (save-IsOwner k e _ o _ (Payload.item i) w t c h)
      ]

  update-IsOwner :
      (k : ItemKey) (raw : Item) (o : Owner) (w : W) → IsOwner o → IsOwner (update env k raw o w).0
  unfolding update
  update-IsOwner k raw o w t = elim (Option-cases (current o k)) [
    | inl absent ↦ rw (absent, update) t
    | inr (e, c) ↦ elim (Bool-cases (is_ok (validate_item env.visits (record raw { key = k })))) [
      | inl good ↦
          rw (c, update, good) (offer-IsOwner k e _ o w t c (updated-IsHeld k raw e o t c good))
      | inr bad ↦ rw (c, update, bad) t
    ]
  ]

  update_menu-IsOwner :
      (k : ItemKey) (m : Menu) (o : Owner) (w : W) → IsOwner o → IsOwner (update_menu env k m o w).0
  unfolding update_menu
  update_menu-IsOwner k m o w t = elim (Option-cases (current o k)) [
    | inl absent ↦ rw (absent, update_menu) t
    | inr (e, c) ↦ elim (Bool-cases (e.published && is_ok (validate_menu m))) [
      | inl good ↦
          let held = t.held (address_of k) e (current-lookup o k e c).0 in
          rw (c, update_menu, good)
            (save-IsOwner k e _ o _ _ w t c (
              rw (clone_menu-eq m) (record {
                address = held.address;
                complete = held.complete;
                valid = held.valid;
                key = held.key;
                menu_live = λ _. ((&&_iff e.published (is_ok (validate_menu m))).0 good).0;
                menu_valid = λ _.
                    (is_ok_iff (validate_menu m)).0
                      ((&&_iff e.published (is_ok (validate_menu m))).0 good).1;
              })))
      | inr bad ↦ rw (c, update_menu, bad) t
    ]
  ]

  remove-IsOwner : (k : ItemKey) (o : Owner) (w : W) → IsOwner o → IsOwner (remove env k o w).0
  unfolding remove
  remove-IsOwner k o w t = elim (Option-cases (current o k)) [
    | inl absent ↦ rw (absent, remove) t
    | inr (e, c) ↦ rw (c, remove) (retire-IsOwner (address_of k) e o w t)
  ]

  submit-IsOwner :
      (command : Owner → W → Owner × W) (o : Owner) (w : W)
      → IsOwner o
      → IsOwner (command o w).0
      → IsOwner (submit command o w).0
  unfolding submit
  submit-IsOwner command o w t u =
      if_both (λ (r : Owner × W). IsOwner r.0) o.stopped (o, w) (command o w) t u

  pub step-IsOwner : (c : Call) (o : Owner) (w : W) → IsOwner o → IsOwner (step env c o w).0
  unfolding step
  step-IsOwner (adds k) o w t = submit-IsOwner (add env k) o w t (add-IsOwner k o w t)
  step-IsOwner (updates k i) o w t =
      submit-IsOwner (update env k i) o w t (update-IsOwner k i o w t)
  step-IsOwner (updates_menu k m) o w t =
      submit-IsOwner (update_menu env k m) o w t (update_menu-IsOwner k m o w t)
  step-IsOwner (removes k) o w t = submit-IsOwner (remove env k) o w t (remove-IsOwner k o w t)

  pub run-IsOwner : (cs : List Call) (o : Owner) (w : W) → IsOwner o → IsOwner (run env cs o w).0
  unfolding run
  run-IsOwner [] o w t = t
  run-IsOwner (c ∷ cs) o w t =
      run-IsOwner cs (step env c o w).0 (step env c o w).1 (step-IsOwner c o w t)

  handle-IsOwner : (e : Event) (o : Owner) (w : W) → IsOwner o → IsOwner (handle env e o w).0
  unfolding handle attach detach close submit
  handle-IsOwner (calls c) o w t = step-IsOwner c o w t
  handle-IsOwner (attaches id) o w t = ground arith
  handle-IsOwner (detaches id) o w t = ground arith
  handle-IsOwner closes o w t = t

  pub handle_all-IsOwner :
      (es : List Event) (o : Owner) (w : W) → IsOwner o → IsOwner (handle_all env es o w).0
  unfolding handle_all
  handle_all-IsOwner [] o w t = t
  handle_all-IsOwner (e ∷ es) o w t =
      handle_all-IsOwner es (handle env e o w).0 (handle env e o w).1 (handle-IsOwner e o w t)

  -- After any sequence of calls, attachments, detachments and the close, from the start on: at most
  -- 128 addresses are registered, the order lists exactly these, once each; every published item is
  -- valid under its entry's key and address; and a menu, valid too, is kept for published items only.
  pub handle_all-start-IsOwner : (es : List Event) (w : W) → IsOwner (handle_all env es start w).0
  unfolding start lookup contains
  handle_all-start-IsOwner es w = handle_all-IsOwner es start w (record {
    few = omega arith;
    size = refl;
    unique = tt;
    once = tt;
    listed = λ a. refl;
    held = λ a e h. cc;
  })
