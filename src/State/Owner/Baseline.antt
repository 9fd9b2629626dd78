-- ===== src/State/Owner/Baseline.antt =====
-- The snapshot of the owner: what a presenter gets when it attaches.
use native.Mathlib.Nat.{le_trans}
use sysc_tray.Prelude.{
  leb→le, All-mono, ◌≤◌, ◌≡◌, refl, ap, ◌∙◌, inl, inr, true, List, [], ◌∷◌, Option, none, some,
  arith, if◌then◌else◌, leb, map, All, Fresh, Distinct, contains, contains_iff_Fresh, Option-cases,
  Bool-cases,
}
use sysc_tray.Prelude.Shuffles.{
  Shuffle, nil, cons, swap, trans, Shuffle-refl, Shuffle-sym, Shuffle-All, Shuffle-map,
  Shuffle-Distinct,
}
use sysc_tray.Protocol.Types.{Item}
use sysc_tray.State.Maps.{Address, address_eq, address_eq_iff, address_of, lookup}
use sysc_tray.State.Clone.{clone_item, clone_item-eq}
use sysc_tray.State.Owner.{
  Owner, Entry, new_entry, published_items, insert_item, sort_items, snapshot_locked,
}
use sysc_tray.State.Owner.Invariant.{IsOwner}
use sysc_tray.State.Owner.Deltas.{View, view, shown}

-- No generation is smaller than that of an item before it.
abbrev pub IsSorted : List Item → Type 0
IsSorted [] = Unit
IsSorted (i ∷ is) = All (λ j. i.key.generation ≤ j.key.generation) is × IsSorted is

insert_item-Shuffle : (i : Item) (js : List Item) → Shuffle (insert_item i js) (i ∷ js)
unfolding insert_item
insert_item-Shuffle i [] = Shuffle-refl (i ∷ [])
insert_item-Shuffle i (j ∷ js) = elim (Bool-cases (leb i.key.generation j.key.generation)) [
  | inl first ↦ rw (first, insert_item) (Shuffle-refl (i ∷ j ∷ js))
  | inr later ↦ rw (later, insert_item) (trans (cons j (insert_item-Shuffle i js)) (swap j i js))
]

pub sort_items-Shuffle : (is : List Item) → Shuffle (sort_items is) is
unfolding sort_items
sort_items-Shuffle [] = nil
sort_items-Shuffle (i ∷ is) =
    trans (insert_item-Shuffle i (sort_items is)) (cons i (sort_items-Shuffle is))

insert_item-IsSorted : (i : Item) (js : List Item) → IsSorted js → IsSorted (insert_item i js)
unfolding insert_item
insert_item-IsSorted i [] h = (tt, tt)
insert_item-IsSorted i (j ∷ js) h = elim (Bool-cases (leb i.key.generation j.key.generation)) [
  | inl first ↦
      rw (first, insert_item)
        (
          (
            leb→le _ _ first,
            All-mono _ _ (λ x le. le_trans (leb→le i.key.generation j.key.generation first) le) js
                h.0,
          ),
          h,
        )
  | inr later ↦
      rw (later, insert_item)
        (
          Shuffle-All _ (Shuffle-sym (insert_item-Shuffle i js)) (ground arith, h.0),
          insert_item-IsSorted i js h.1,
        )
]

pub sort_items-IsSorted : (is : List Item) → IsSorted (sort_items is)
unfolding sort_items
sort_items-IsSorted [] = tt
sort_items-IsSorted (i ∷ is) = insert_item-IsSorted i (sort_items is) (sort_items-IsSorted is)

-- The view of a presenter that has just applied a list of items: the first one at each address.
pub first_at : List Item → View
first_at [] a = none
first_at (i ∷ is) a = if address_eq (address_of i.key) a then some i else first_at is a

abbrev pub addresses : List Item → List Address
addresses = map (λ i. address_of i.key)

first_at-Shuffle :
    {xs ys : List Item} (a : Address)
    → Shuffle xs ys
    → Distinct (addresses xs)
    → first_at xs a ≡ first_at ys a
unfolding first_at
first_at-Shuffle a nil d = refl
first_at-Shuffle a (cons x s) d = ground (arith, first_at-Shuffle a s d.1)
first_at-Shuffle a (swap x y xs) d =
    ground (arith, address_eq_iff (address_of x.key) a, address_eq_iff (address_of y.key) a)
first_at-Shuffle a (trans s t) d =
    first_at-Shuffle a s d
    ∙ first_at-Shuffle a t (Shuffle-Distinct (Shuffle-map (λ (i : Item). address_of i.key) s) d)

abbrev get_or : Option Entry → Entry
get_or none = new_entry (record { owner = []; object_path = []; generation = 0 })
get_or (some e) = e

module _ (o : Owner) (t : IsOwner o) where
  published_at :
      (b : Address) (e : Entry)
      → lookup b o.items ≡ some e
      → e.published ≡ true
      → address_of (clone_item e.item).key ≡ b
  published_at b e known live =
      rw (clone_item-eq e.item)
        (ap address_of ((t.held b e known).key live) ∙ (t.held b e known).address)

  Fresh-published :
      (a : Address) (spots : List Address)
      → Fresh a spots
      → Fresh a (addresses (published_items o spots))
  unfolding published_items
  Fresh-published a [] h = tt
  Fresh-published a (b ∷ bs) h = elim (Option-cases (lookup b o.items)) [
    | inl absent ↦ rw (absent, published_items) (Fresh-published a bs h.1)
    | inr (e, known) ↦ elim (Bool-cases e.published) [
      | inl live ↦
          rw (known, published_items, live)
            ((λ p. h.0 (p ∙ published_at b e known live)), Fresh-published a bs h.1)
      | inr hidden ↦ rw (known, published_items, hidden) (Fresh-published a bs h.1)
    ]
  ]

  pub Distinct-published :
      (spots : List Address) → Distinct spots → Distinct (addresses (published_items o spots))
  unfolding published_items
  Distinct-published [] h = tt
  Distinct-published (b ∷ bs) h = elim (Option-cases (lookup b o.items)) [
    | inl absent ↦ rw (absent, published_items) (Distinct-published bs h.1)
    | inr (e, known) ↦ elim (Bool-cases e.published) [
      | inl live ↦
          rw (known, published_items, live)
            (rw (published_at b e known live) (Fresh-published b bs h.0), Distinct-published bs h.1)
      | inr hidden ↦ rw (known, published_items, hidden) (Distinct-published bs h.1)
    ]
  ]

  first_at-published :
      (a : Address) (spots : List Address)
      → Distinct spots
      → first_at (published_items o spots) a
        ≡ (if contains address_eq a spots then view o.items a else none)
  unfolding published_items first_at contains view shown
  first_at-published a [] h = refl
  first_at-published a (b ∷ bs) h = ground (
    arith,
    first_at-published a bs h.1,
    contains_iff_Fresh address_eq address_eq_iff b bs,
    address_eq_iff a b,
    address_eq_iff b a,
    clone_item-eq (get_or (lookup b o.items)).item,
    published_at b (get_or (lookup b o.items)),
  )

  -- The baseline shows at each address the published item of that address, and nothing where there
  -- is none: what the presenter gets by attaching is the owner's state.
  pub first_at-snapshot : (a : Address) → first_at (snapshot_locked o).items a ≡ view o.items a
  unfolding snapshot_locked view shown
  first_at-snapshot a = ground (
    arith,
    first_at-Shuffle a (Shuffle-sym (sort_items-Shuffle (published_items o o.order)))
        (Distinct-published o.order t.once),
    first_at-published a o.order t.once,
    t.listed a,
  )

-- The items of a snapshot are in the order of their generations.
pub snapshot-IsSorted : (o : Owner) → IsSorted (snapshot_locked o).items
unfolding snapshot_locked
snapshot-IsSorted o = sort_items-IsSorted (published_items o o.order)
