-- ===== src/State/Owner/Stability.antt =====
-- internal/state/owner.go: results that come too late or say nothing new change nothing.
use sysc_tray.Prelude.{
  ◌<◌, ◌≡◌, refl, sym, ◌∙◌, ◌≢◌, true, ◌&&◌, List, none, some, arith, is_ok, Option-cases,
  Bool-cases, inl, inr,
}
use sysc_tray.Protocol.Types.{Kind, Item, ItemKey, Menu}
use sysc_tray.Protocol.Fields.{key_eq_iff}
use sysc_tray.Protocol.Items.{validate_item}
use sysc_tray.State.Maps.{Address, address_eq_iff, address_of, lookup, lookup-put}
use sysc_tray.State.Clone.{clone_item, deep_equal, deep_equal_iff}
use sysc_tray.State.Owner.{
  Env, Entry, Owner, Payload, new_entry, current, publish, retire, register, save, offer, add,
  update, update_menu, remove, menu_of,
}
use sysc_tray.State.Owner.Steps.{publish-items}
use sysc_tray.State.Owner.Invariant.{current-lookup}

current_stale :
    (o : Owner) (k : ItemKey)
    → ((e : Entry) → lookup (address_of k) o.items ≡ some e → e.key ≢ k)
    → current o k ≡ none
current_stale o k stale = elim (Option-cases (current o k)) [
  | inl absent ↦ absent
  | inr (e, c) ↦ absurd (stale e (current-lookup o k e c).0 (current-lookup o k e c).1)
]

current_known :
    (o : Owner) (k : ItemKey) (e : Entry)
    → lookup (address_of k) o.items ≡ some e
    → e.key ≡ k
    → current o k ≡ some e
unfolding current
current_known o k e known same = ground (arith, key_eq_iff e.key k)

one_entry :
    (m : List (Address × Entry)) {a b : Address} {x y : Entry}
    → a ≡ b
    → lookup a m ≡ some x
    → lookup b m ≡ some y
    → x.key ≡ y.key
one_entry m same p q = ground arith

module _ {W : Type 0} (env : Env W) where
  -- No operation with a key that is not the one registered at its address has an effect, be it that
  -- the address is unknown or that another generation has it.
  pub stale_key_ignored :
      (k : ItemKey) (o : Owner) (w : W)
      → ((e : Entry) → lookup (address_of k) o.items ≡ some e → e.key ≢ k)
      → ((i : Item) → update env k i o w ≡ (o, w))
        × ((m : Menu) → update_menu env k m o w ≡ (o, w))
        × (remove env k o w ≡ (o, w))
        × (menu_of k o ≡ none)
  unfolding update update_menu remove menu_of
  stale_key_ignored k o w stale =
      let c = current_stale o k stale in
      (λ i. rw (c, update), λ m. rw (c, update_menu), rw (c, remove), rw (c, menu_of))

  registered :
      (k : ItemKey) (e : Entry) (o : Owner) (w : W)
      → lookup (address_of k) o.items ≡ some e
      → e.key.generation < k.generation
      → lookup (address_of k) (add env k o w).0.items ≡ some (new_entry k)
  unfolding add register
  registered k e o w known newer = ground (
    arith,
    lookup-put (address_of k) (address_of k) (new_entry k)
        (retire env (address_of k) e o w).0.items,
    address_eq_iff (address_of k) (address_of k),
  )

  -- After a registration with a larger generation, the new key is the current one at its address and
  -- has nothing published, and the state is deaf to every other key of that address.
  pub add_supersedes :
      (k j : ItemKey) (e : Entry) (o : Owner) (w : W)
      → lookup (address_of k) o.items ≡ some e
      → e.key.generation < k.generation
      → address_of j ≡ address_of k
      → j ≢ k
      → let p = add env k o w in
        (current p.0 k ≡ some (new_entry k))
        × ((i : Item) → update env j i p.0 p.1 ≡ p)
        × (remove env j p.0 p.1 ≡ p)
  add_supersedes k j e o w known newer same other =
      let p = add env k o w in
      let here = registered k e o w known newer in
      let stale =
        stale_key_ignored j p.0 p.1 (λ x at q. other (sym q ∙ one_entry p.0.items same at here)) in
      (current_known p.0 k (new_entry k) here refl, stale.0, stale.2)

  offer_same :
      (k : ItemKey) (e : Entry) (i : Item) (o : Owner) (w : W)
      → e.published ≡ true
      → e.has_item ≡ true
      → e.item ≡ i
      → offer env k e i o w ≡ (o, w)
  unfolding offer
  offer_same k e i o w live complete same = ground (arith, deep_equal_iff e.item i)

  saved :
      (k : ItemKey) (e : Entry) (o : Owner) (kind : Kind) (p : Payload) (w : W)
      → lookup (address_of k) (publish env kind p (save k e o) w).0.items ≡ some e
  unfolding save
  saved k e o kind p w = rw (publish-items env kind p (save k e o) w) (
      ground (
        arith,
        lookup-put (address_of k) (address_of k) e o.items,
        address_eq_iff (address_of k) (address_of k),
      ))

  offer_again :
      (k : ItemKey) (e : Entry) (i : Item) (o : Owner) (w : W)
      → lookup (address_of k) o.items ≡ some e
      → e.key ≡ k
      → let p = offer env k e i o w in
        (x : Entry) × (current p.0 k ≡ some x) × (offer env k x i p.0 p.1 ≡ p)
  unfolding offer
  offer_again k e i o w known at_k =
      elim (Bool-cases (e.published && (e.has_item && deep_equal e.item i))) [
        | inl same ↦
            let r : offer env k e i o w ≡ (o, w) = rw (same, offer) in
            (e, rw r (current_known o k e known at_k), rw r r)
        | inr new ↦
            let x : Entry = record e { item = i; has_item = true; published = true } in
            (
              x,
              rw (new, offer) (current_known _ k x (saved k x o _ (Payload.item i) w) at_k),
              offer_same k x i _ _ refl refl refl,
            )
      ]

  -- The same result a second time is not an event: neither the state nor the sinks change.
  pub update_idempotent :
      (k : ItemKey) (i : Item) (o : Owner) (w : W)
      → let p = update env k i o w in update env k i p.0 p.1 ≡ p
  unfolding update
  update_idempotent k i o w = elim (Option-cases (current o k)) [
    | inl absent ↦ let r : update env k i o w ≡ (o, w) = rw (absent, update) in rw r r
    | inr (e, c) ↦ elim (Bool-cases (is_ok (validate_item env.visits (record i { key = k })))) [
      | inl good ↦
          let next = clone_item (record i { key = k }) in
          let again =
            offer_again k e next o w (current-lookup o k e c).0 (current-lookup o k e c).1 in
          let r : update env k i o w ≡ offer env k e next o w = rw (c, update, good) in
          rw r (rw (again.1, update, good) again.2)
      | inr bad ↦ let r : update env k i o w ≡ (o, w) = rw (c, update, bad) in rw r r
    ]
  ]
