-- ===== src/State/Table.antt =====
-- The map and the order slice of internal/state/owner.go agree: what is true of them together, and
-- that a deletion, a registration and a write through an entry keep it.
use sysc_tray.Prelude.{
  ◌+◌, ◌<◌, ◌≤◌, ◌≡◌, refl, ◌≢◌, sym, true, false, List, [], ◌∷◌, ◌++◌, none, some, arith, map,
  if◌then◌else◌, length, length-append, Fresh, Distinct, contains, contains_iff_Fresh, ok,
}
use sysc_tray.Protocol.Types.{max_items}
use sysc_tray.Protocol.Items.{IsItem}
use sysc_tray.Protocol.Menus.{validate_menu}
use sysc_tray.Protocol.Messages.{is_some}
use sysc_tray.State.Maps.{
  Address, address_eq, address_eq_iff, address_of, remove_first, lookup, delete, put, lookup-delete,
  lookup-put, length-delete, length-delete_known,
}
use sysc_tray.State.Owner.{Entry}

-- An entry under its address: what is published is a valid item under the entry's own key, and a
-- menu belongs to a published item.
pub record IsHeld (a : Address) (e : Entry) : Type 0 where
  pub address : address_of e.key ≡ a
  pub complete : e.published ≡ e.has_item
  pub valid : e.published ≡ true → IsItem e.item
  pub key : e.published ≡ true → e.item.key ≡ e.key
  pub menu_live : e.has_menu ≡ true → e.published ≡ true
  pub menu_valid : e.has_menu ≡ true → validate_menu e.menu ≡ ok tt

abbrev pub spots : List (Address × Entry) → List Address
spots = map (λ p. p.0)

pub record IsTable (m : List (Address × Entry)) (order : List Address) : Type 0 where
  pub few : length m ≤ max_items
  pub size : length order ≡ length m
  pub unique : Distinct (spots m)
  pub once : Distinct order
  pub listed : (a : Address) → contains address_eq a order ≡ is_some (lookup a m)
  pub held : (a : Address) (e : Entry) → lookup a m ≡ some e → IsHeld a e

Fresh-delete :
    (b a : Address) (m : List (Address × Entry)) → Fresh b (spots m) → Fresh b (spots (delete a m))
unfolding delete
Fresh-delete b a [] h = tt
Fresh-delete b a ((c, v) ∷ m) h = ground (arith, Fresh-delete b a m)

Fresh-delete_self : (a : Address) (m : List (Address × Entry)) → Fresh a (spots (delete a m))
unfolding delete
Fresh-delete_self a [] = tt
Fresh-delete_self a ((c, v) ∷ m) = ground (arith, Fresh-delete_self a m, address_eq_iff c a)

Distinct-delete :
    (a : Address) (m : List (Address × Entry)) → Distinct (spots m) → Distinct (spots (delete a m))
unfolding delete
Distinct-delete a [] h = tt
Distinct-delete a ((c, v) ∷ m) h = ground (arith, Distinct-delete a m, Fresh-delete c a m)

contains-remove_first :
    (a b : Address) (bs : List Address)
    → Distinct bs
    → contains address_eq b (remove_first a bs)
      ≡ (if address_eq a b then false else contains address_eq b bs)
unfolding contains remove_first
contains-remove_first a b [] h = ground arith
contains-remove_first a b (c ∷ bs) h = ground (
  arith,
  contains-remove_first a b bs,
  contains_iff_Fresh address_eq address_eq_iff c bs,
  address_eq_iff c a,
  address_eq_iff b c,
  address_eq_iff a b,
)

Fresh-remove_first : (b a : Address) (bs : List Address) → Fresh b bs → Fresh b (remove_first a bs)
unfolding remove_first
Fresh-remove_first b a [] h = tt
Fresh-remove_first b a (c ∷ bs) h = ground (arith, Fresh-remove_first b a bs)

Distinct-remove_first :
    (a : Address) (bs : List Address) → Distinct bs → Distinct (remove_first a bs)
unfolding remove_first
Distinct-remove_first a [] h = tt
Distinct-remove_first a (c ∷ bs) h =
    ground (arith, Distinct-remove_first a bs, Fresh-remove_first c a bs)

contains-snoc :
    (a b : Address) (bs : List Address)
    → contains address_eq b (bs ++ a ∷ [])
      ≡ (if address_eq a b then true else contains address_eq b bs)
unfolding contains
contains-snoc a b [] = ground (arith, address_eq_iff a b, address_eq_iff b a)
contains-snoc a b (c ∷ bs) = ground (arith, contains-snoc a b bs)

Fresh-snoc : (b a : Address) (bs : List Address) → Fresh b bs → b ≢ a → Fresh b (bs ++ a ∷ [])
Fresh-snoc b a [] h n = (n, tt)
Fresh-snoc b a (c ∷ bs) h n = (h.0, Fresh-snoc b a bs h.1 n)

Distinct-snoc :
    (a : Address) (bs : List Address) → Distinct bs → Fresh a bs → Distinct (bs ++ a ∷ [])
Distinct-snoc a [] d f = (tt, tt)
Distinct-snoc a (c ∷ bs) d f =
    (Fresh-snoc c a bs d.0 (λ e. f.0 (sym e)), Distinct-snoc a bs d.1 f.1)

lookup-Fresh : (a : Address) (m : List (Address × Entry)) → Fresh a (spots m) → lookup a m ≡ none
unfolding lookup
lookup-Fresh a [] h = refl
lookup-Fresh a ((c, v) ∷ m) h = ground (arith, lookup-Fresh a m, address_eq_iff c a)

length-delete_eq :
    (a : Address) (m : List (Address × Entry))
    → Distinct (spots m)
    → length (delete a m) + (if is_some (lookup a m) then 1 else 0) ≡ length m
unfolding delete lookup
length-delete_eq a [] h = omega arith
length-delete_eq a ((c, v) ∷ m) h =
    ground (arith, length-delete_eq a m, lookup-Fresh a m, address_eq_iff c a)

length-remove_first :
    (a : Address) (bs : List Address)
    → length (remove_first a bs) + (if contains address_eq a bs then 1 else 0) ≡ length bs
unfolding remove_first contains
length-remove_first a [] = omega arith
length-remove_first a (c ∷ bs) =
    ground (arith, length-remove_first a bs, address_eq_iff a c, address_eq_iff c a)

pub IsTable-delete :
    (a : Address) (m : List (Address × Entry)) (order : List Address)
    → IsTable m order
    → IsTable (delete a m) (remove_first a order)
IsTable-delete a m order t = record {
  few = omega (arith, length-delete a m, t.few);
  size =
      ground
        (arith, length-delete_eq a m t.unique, length-remove_first a order, t.listed a, t.size);
  unique = Distinct-delete a m t.unique;
  once = Distinct-remove_first a order t.once;
  listed =
      λ b. ground (arith, contains-remove_first a b order t.once, lookup-delete a b m, t.listed b);
  held = λ b e h. ground (arith, lookup-delete a b m, t.held b e);
}

pub IsTable-insert :
    (a : Address) (e : Entry) (m : List (Address × Entry)) (order : List Address)
    → IsTable m order
    → lookup a m ≡ none
    → length m < max_items
    → IsHeld a e
    → IsTable (put a e m) (order ++ a ∷ [])
unfolding put
IsTable-insert a e m order t absent room h = record {
  few = omega (arith, length-delete a m);
  size = ground (arith, length-delete_eq a m t.unique, length-append order (a ∷ []), t.size);
  unique = (Fresh-delete_self a m, Distinct-delete a m t.unique);
  once =
      Distinct-snoc a order t.once
        ((contains_iff_Fresh address_eq address_eq_iff a order).0 (ground (arith, t.listed a)));
  listed = λ b. ground (arith, contains-snoc a b order, lookup-put a b e m, t.listed b);
  held = λ b x k. ground (arith, lookup-put a b e m, t.held b x, address_eq_iff a b);
}

pub IsTable-save :
    (a : Address) (old e : Entry) (m : List (Address × Entry)) (order : List Address)
    → IsTable m order
    → lookup a m ≡ some old
    → IsHeld a e
    → IsTable (put a e m) order
unfolding put
IsTable-save a old e m order t known h = record {
  few = omega (arith, length-delete_known a old m known, t.few);
  size = ground (arith, length-delete_eq a m t.unique, t.size);
  unique = (Fresh-delete_self a m, Distinct-delete a m t.unique);
  once = t.once;
  listed = λ b. ground (arith, lookup-put a b e m, t.listed b, address_eq_iff a b);
  held = λ b x k. ground (arith, lookup-put a b e m, t.held b x, address_eq_iff a b);
}
