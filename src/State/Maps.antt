-- ===== src/State/Maps.antt =====
-- The map from addresses to entries of internal/state/owner.go, as an association list, and the
-- slice of addresses beside it.
use sysc_tray.Prelude.{
  suc, ◌≤◌, ◌≡◌, ◌↔◌, Bool, true, ◌&&◌, List, [], ◌∷◌, Option, none, some, arith, if◌then◌else◌,
  Text, text_eq, text_eq_iff, length,
}
use sysc_tray.Protocol.Types.{ItemKey}

pub record Address : Type 0 where
  pub owner : Text
  pub path : Text

unfoldable pub address_eq : Address → Address → Bool
address_eq a b = text_eq a.owner b.owner && text_eq a.path b.path

pub address_eq_iff : (a b : Address) → (address_eq a b ≡ true) ↔ (a ≡ b)
unfolding address_eq
address_eq_iff a b = ground (arith, text_eq_iff a.owner b.owner, text_eq_iff a.path b.path)

-- `address{owner: key.Owner, path: key.ObjectPath}`
abbrev pub address_of : ItemKey → Address
address_of k = record { owner = k.owner; path = k.object_path }

-- The loop of `retire` over the slice, which takes out the first match.
unfoldable pub remove_first : Address → List Address → List Address
remove_first a [] = []
remove_first a (b ∷ bs) = if address_eq b a then bs else b ∷ remove_first a bs

module _ {ℓ} {V : Type ℓ} where
  unfoldable pub lookup : Address → List (Address × V) → Option V
  lookup a [] = none
  lookup a ((b, v) ∷ m) = if address_eq b a then some v else lookup a m

  unfoldable pub delete : Address → List (Address × V) → List (Address × V)
  delete a [] = []
  delete a ((b, v) ∷ m) = let rest = delete a m in if address_eq b a then rest else (b, v) ∷ rest

  -- `m[a] = v`
  unfoldable pub put : Address → V → List (Address × V) → List (Address × V)
  unfolding delete
  put a v m = (a, v) ∷ delete a m

  pub lookup-delete :
      (a b : Address) (m : List (Address × V))
      → lookup b (delete a m) ≡ (if address_eq a b then none else lookup b m)
  unfolding lookup delete
  lookup-delete a b [] = ground arith
  lookup-delete a b ((c, v) ∷ m) =
      ground
        (arith, lookup-delete a b m, address_eq_iff c a, address_eq_iff c b, address_eq_iff a b)

  pub lookup-put :
      (a b : Address) (v : V) (m : List (Address × V))
      → lookup b (put a v m) ≡ (if address_eq a b then some v else lookup b m)
  unfolding lookup put
  lookup-put a b v m = ground (arith, lookup-delete a b m)

  pub length-delete : (a : Address) (m : List (Address × V)) → length (delete a m) ≤ length m
  unfolding delete
  length-delete a [] = omega arith
  length-delete a ((b, v) ∷ m) = ground (arith, length-delete a m)

  -- A key that is there makes room when it goes.
  pub length-delete_known :
      (a : Address) (v : V) (m : List (Address × V))
      → lookup a m ≡ some v
      → suc (length (delete a m)) ≤ length m
  unfolding lookup delete
  length-delete_known a v [] h = cc
  length-delete_known a v ((b, w) ∷ m) h =
      ground (arith, length-delete a m, length-delete_known a v m)
