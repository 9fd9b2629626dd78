-- ===== src/Watcher/Server/Published.antt =====
-- What the server of internal/watcher/server.go shows on the bus of its items.
use sysc_tray.Prelude.{
  ◌≡◌, ◌≢◌, ◌%◌, ◌^◌, ◌+◌, refl, sym, ap, ◌∙◌, Bool, true, List, [], ◌∷◌, Option, none, some, arith,
  Text, text_eq, text_eq_iff, Result, ok, err, All, Bool-cases, Option-cases, inl, inr,
}
use sysc_tray.Dbusval.{Signal}
use sysc_tray.Watcher.Address.{
  Key, Address, AddressError, IsAddress, resolve_registration, resolve_registration-IsAddress,
  default_item_path,
}
use sysc_tray.Watcher.Registry.{address_of, find}
use sysc_tray.Watcher.Server.{
  Props, Server, Call, register_item, host, signal, register_address, register_result, owned_by,
  others, remove_owner, retire, handle_name_owner_changed, register_host, register, call, run,
  quiet, publish_items_locked, set_items, set_host, item_addresses,
}
use sysc_tray.Watcher.Server.Served.{handle_elim}

-- The exported property lists the addresses of the items, in the order of strings, and each item has
-- a valid address.
pub record Shows (path_valid : Text → Bool) (s : Server) : Type 0 where
  pub property : (p : Props) → s.props ≡ some p → p.registered_items ≡ item_addresses s.items
  pub addresses : All (λ k. IsAddress path_valid (address_of k)) s.items

publish-property :
    (s : Server) (p : Props)
    → (publish_items_locked s).props ≡ some p
    → p.registered_items ≡ item_addresses s.items
unfolding publish_items_locked set_items
publish-property s p h = elim (Option-cases s.props) [
  | inl missing ↦ ground arith
  | inr (q, there) ↦ ground arith
]

All-others :
    (P : Key → Type 0) (owner : Text) (ks : List Key)
    → All P ks
    → All (λ k. P k × (k.owner ≢ owner)) (others owner ks)
unfolding others
All-others P owner [] h = tt
All-others P owner (k ∷ ks) h = elim (Bool-cases (text_eq k.owner owner)) [
  | inl its ↦ rw its (All-others P owner ks h.1)
  | inr other ↦
      rw other ((h.0, ground (arith, text_eq_iff k.owner owner)), All-others P owner ks h.1)
]

All-left : (P Q : Key → Type 0) (ks : List Key) → All (λ k. P k × Q k) ks → All P ks
All-left P Q [] h = tt
All-left P Q (k ∷ ks) h = (h.0.0, All-left P Q ks h.1)

none_owned : (owner : Text) (ks : List Key) → owned_by owner ks ≡ [] → others owner ks ≡ ks
unfolding owned_by others
none_owned owner [] h = refl
none_owned owner (k ∷ ks) h = ground (arith, none_owned owner ks)

host_property :
    (ks : List Key) (props : Option Props)
    → ((p : Props) → props ≡ some p → p.registered_items ≡ item_addresses ks)
    → (p : Props) → set_host props ≡ some p
    → p.registered_items ≡ item_addresses ks
unfolding set_host
host_property ks none h p e = ground arith
host_property ks (some q) h p e = ground (arith, h q refl)

module _ (path_valid : Text → Bool) (default_valid : path_valid default_item_path ≡ true) where
  register_address-Shows :
      (s : Server) (a : Address)
      → IsAddress path_valid a
      → Shows path_valid s
      → Shows path_valid (register_address s a).server
  unfolding register_address quiet publish_items_locked
  register_address-Shows s a valid h = elim (Option-cases (find a s.items)) [
    | inl fresh ↦
        rw (fresh, register_address)
          (record {
            property = publish-property (record s {
              items =
                  record {
                    owner = a.owner;
                    object_path = a.object_path;
                    generation = (s.generation + 1) % 2 ^ 64;
                  }
                  ∷ s.items;
              generation = (s.generation + 1) % 2 ^ 64;
            });
            addresses = (valid, h.addresses);
          })
    | inr (k, there) ↦ rw (there, register_address) h
  ]

  register_result-Shows :
      (s : Server) (r : Result AddressError Address)
      → ((a : Address) → r ≡ ok a → IsAddress path_valid a)
      → Shows path_valid s
      → Shows path_valid (register_result s r).server
  unfolding register_result quiet
  register_result-Shows s (err e) valid h = h
  register_result-Shows s (ok a) valid h = register_address-Shows s a (valid a refl) h

  remaining :
      (s : Server) (owner : Text)
      → Shows path_valid s
      → All (λ k. IsAddress path_valid (address_of k)) (others owner s.items)
  remaining s owner h =
      All-left _ (λ k. k.owner ≢ owner) (others owner s.items)
        (All-others (λ k. IsAddress path_valid (address_of k)) owner s.items h.addresses)

  -- The keys are only the test for a change: the items are those of the other owners in both cases.
  retire-Shows :
      (s : Server) (owner : Text) → Shows path_valid s → Shows path_valid (retire s owner).server
  unfolding retire remove_owner
  retire-Shows s owner h = go (owned_by owner s.items) refl
    where
      go :
          (gone : List Key)
          → owned_by owner s.items ≡ gone
          → Shows path_valid (elim gone [
            | [] ↦ record s { items = others owner s.items }
            | k ∷ ks ↦ publish_items_locked (record s { items = others owner s.items })
          ])
      go [] e = record {
        property =
            λ p there. h.property p there ∙ ap item_addresses (sym (none_owned owner s.items e));
        addresses = remaining s owner h;
      }
      go (k ∷ ks) e = record {
        property = publish-property (record s { items = others owner s.items });
        addresses = remaining s owner h;
      }

  register_host-Shows :
      (s : Server) (service : Text)
      → Shows path_valid s
      → Shows path_valid (register_host s service).server
  unfolding register_host quiet
  register_host-Shows s service h = elim (Bool-cases (text_eq service [])) [
    | inl empty ↦ rw empty h
    | inr set ↦ rw set (elim (Bool-cases s.host_registered) [
      | inl again ↦ rw again (record { property = h.property; addresses = h.addresses })
      | inr first ↦
          rw first (record {
            property = host_property s.items s.props h.property;
            addresses = h.addresses;
          })
    ])
  ]

  handle-Shows :
      (s : Server) (v : Signal)
      → Shows path_valid s
      → Shows path_valid (handle_name_owner_changed s v).server
  unfolding quiet
  handle-Shows s v h =
      handle_elim (λ o. Shows path_valid o.server) s h
        (record { property = h.property; addresses = h.addresses }) (λ name. retire-Shows s name h)
        v

  call-Shows :
      (s : Server) (c : Call) → Shows path_valid s → Shows path_valid (call path_valid s c).server
  unfolding call register
  call-Shows s (register_item sender argument resolve) h =
      register_result-Shows s (resolve_registration path_valid resolve sender argument)
        (resolve_registration-IsAddress path_valid default_valid resolve sender argument) h
  call-Shows s (host service) h = register_host-Shows s service h
  call-Shows s (signal v) h = handle-Shows s v h

  -- For a library that accepts the default path, and from a server that shows its items, whatever
  -- is called in whatever order: the exported property lists exactly the addresses of the items in
  -- the order of strings, and each item has a unique owner and a valid path.
  pub run-Shows :
      (s : Server) (cs : List Call) → Shows path_valid s → Shows path_valid (run path_valid s cs).0
  unfolding run
  run-Shows s [] h = h
  run-Shows s (c ∷ cs) h = run-Shows (call path_valid s c).server cs (call-Shows s c h)
