-- ===== src/State/Owner/Registered.antt =====
-- internal/state/owner.go: which keys are registered after a call.
pub mod Calls
use sysc_tray.Prelude.{
  ◌≡◌, refl, arith, Bool, true, false, not, ◌&&◌, ◌||◌, Option, none, some, is_ok, if_both,
  Option-cases, inl, inr,
}
use sysc_tray.Protocol.Types.{Kind, ItemKey, Item, Menu}
use sysc_tray.Protocol.Fields.{key_eq, key_eq_iff}
use sysc_tray.Protocol.Items.{validate_item}
use sysc_tray.Protocol.Menus.{validate_menu}
use sysc_tray.State.Maps.{
  Address, address_eq, address_eq_iff, address_of, lookup, delete, lookup-delete, lookup-put,
  remove_first,
}
use sysc_tray.State.Clone.{clone_item, deep_equal}
use sysc_tray.State.Owner.{
  Env, Entry, Owner, Payload, new_entry, current, publish, retire, register, save, offer, add,
  update, update_menu, remove, submit,
}
use sysc_tray.State.Owner.Steps.{publish-items, publish-stopped}
use sysc_tray.State.Owner.Invariant.{current-lookup, retire-items}

has_key : ItemKey → Option Entry → Bool
has_key j none = false
has_key j (some e) = key_eq e.key j

-- The key is the one that is registered at its address.
unfoldable pub registered : ItemKey → Owner → Bool
unfolding has_key
registered j o = has_key j (lookup (address_of j) o.items)

current-registered : (k : ItemKey) (o : Owner) → current o k ≡ none → registered k o ≡ false
unfolding current registered
current-registered k o h = elim (Option-cases (lookup (address_of k) o.items)) [
  | inl absent ↦ ground arith
  | inr (e, known) ↦ ground arith
]

at_same : (k j : ItemKey) → key_eq k j ≡ true → address_eq (address_of k) (address_of j) ≡ true
at_same k j h = ground (arith, key_eq_iff k j, address_eq_iff (address_of k) (address_of j))

module _ {W : Type 0} (env : Env W) where
  retire-stopped :
      (a : Address) (e : Entry) (o : Owner) (w : W) → (retire env a e o w).0.stopped ≡ o.stopped
  unfolding retire
  retire-stopped a e o w = ground (
    arith,
    publish-stopped env Kind.item_removed (Payload.removed (record { key = e.key }))
        (record o { items = delete a o.items; order = remove_first a o.order }) w,
  )

  pub add-registered :
      (k j : ItemKey) (o : Owner) (w : W)
      → registered j (add env k o w).0 ≡ true
      → (key_eq k j || registered j o) ≡ true
  unfolding add register registered
  add-registered k j o w h = elim (Option-cases (lookup (address_of k) o.items)) [
    | inl absent ↦ ground (arith, lookup-put (address_of k) (address_of j) (new_entry k) o.items)
    | inr (e, known) ↦ ground (
      arith,
      lookup-put (address_of k) (address_of j) (new_entry k)
          (retire env (address_of k) e o w).0.items,
      retire-items env (address_of k) e o w,
      lookup-delete (address_of k) (address_of j) o.items,
    )
  ]

  pub add-stopped : (k : ItemKey) (o : Owner) (w : W) → (add env k o w).0.stopped ≡ o.stopped
  unfolding add register
  add-stopped k o w = elim (Option-cases (lookup (address_of k) o.items)) [
    | inl absent ↦ ground arith
    | inr (e, known) ↦ ground (arith, retire-stopped (address_of k) e o w)
  ]

  -- A write through a current entry.
  saved-registered :
      (k j : ItemKey) (old e : Entry) (o : Owner) (kind : Kind) (p : Payload) (w : W)
      → current o k ≡ some old
      → e.key ≡ old.key
      → registered j (publish env kind p (save k e o) w).0 ≡ registered j o
  unfolding save registered
  saved-registered k j old e o kind p w c same = ground (
    arith,
    publish-items env kind p (save k e o) w,
    current-lookup o k old c,
    lookup-put (address_of k) (address_of j) e o.items,
    address_eq_iff (address_of k) (address_of j),
  )

  offer-registered :
      (k j : ItemKey) (e : Entry) (i : Item) (o : Owner) (w : W)
      → current o k ≡ some e
      → registered j (offer env k e i o w).0 ≡ registered j o
  unfolding offer
  offer-registered k j e i o w c =
      if_both (λ (r : Owner × W). registered j r.0 ≡ registered j o)
        (e.published && (e.has_item && deep_equal e.item i)) _ _ refl
        (saved-registered k j e _ o _ (Payload.item i) w c refl)

  offer-stopped :
      (k : ItemKey) (e : Entry) (i : Item) (o : Owner) (w : W)
      → (offer env k e i o w).0.stopped ≡ o.stopped
  unfolding offer save
  offer-stopped k e i o w =
      if_both (λ (r : Owner × W). r.0.stopped ≡ o.stopped)
        (e.published && (e.has_item && deep_equal e.item i)) _ _ refl
        (publish-stopped env _ (Payload.item i) _ w)

  pub update-registered :
      (k j : ItemKey) (raw : Item) (o : Owner) (w : W)
      → (registered j (update env k raw o w).0 ≡ registered j o)
        × ((update env k raw o w).0.stopped ≡ o.stopped)
  unfolding update
  update-registered k j raw o w = elim (Option-cases (current o k)) [
    | inl absent ↦ rw (absent, update) (refl, refl)
    | inr (e, c) ↦
        let i = clone_item (record raw { key = k }) in
        rw (c, update)
          (if_both
            (λ (r : Owner × W). (registered j r.0 ≡ registered j o) × (r.0.stopped ≡ o.stopped))
            (is_ok (validate_item env.visits (record raw { key = k }))) _ _
            (offer-registered k j e i o w c, offer-stopped k e i o w) (refl, refl))
  ]

  pub update_menu-registered :
      (k j : ItemKey) (m : Menu) (o : Owner) (w : W)
      → (registered j (update_menu env k m o w).0 ≡ registered j o)
        × ((update_menu env k m o w).0.stopped ≡ o.stopped)
  unfolding update_menu
  update_menu-registered k j m o w = elim (Option-cases (current o k)) [
    | inl absent ↦ rw (absent, update_menu) (refl, refl)
    | inr (e, c) ↦
        rw (c, update_menu)
          (if_both
            (λ (r : Owner × W). (registered j r.0 ≡ registered j o) × (r.0.stopped ≡ o.stopped))
            (e.published && is_ok (validate_menu m)) _ _
            (saved-registered k j e _ o _ _ w c refl, unfold save in publish-stopped env _ _ _ w)
            (refl, refl))
  ]

  pub remove-registered :
      (k j : ItemKey) (o : Owner) (w : W)
      → registered j (remove env k o w).0 ≡ true
      → (registered j o && not (key_eq k j)) ≡ true
  unfolding remove registered
  remove-registered k j o w h = elim (Option-cases (current o k)) [
    | inl absent ↦ ground (arith, current-registered k o absent, key_eq_iff k j)
    | inr (e, c) ↦ ground (
      arith,
      retire-items env (address_of k) e o w,
      lookup-delete (address_of k) (address_of j) o.items,
      at_same k j,
    )
  ]

  pub remove-stopped : (k : ItemKey) (o : Owner) (w : W) → (remove env k o w).0.stopped ≡ o.stopped
  unfolding remove
  remove-stopped k o w = elim (Option-cases (current o k)) [
    | inl absent ↦ rw (absent, remove) refl
    | inr (e, c) ↦ rw (c, remove) (retire-stopped (address_of k) e o w)
  ]
