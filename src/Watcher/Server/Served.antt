-- ===== src/Watcher/Server/Served.antt =====
-- How the items of the server of internal/watcher/server.go change.
use sysc_tray.Prelude.{
  ℕ, ◌≡◌, ◌≤◌, ◌<◌, ◌^◌, ◌+◌, refl, subst, Bool, true, not, List, [], ◌∷◌, ◌++◌, map, arith, Text,
  text_eq, length, Result, ok, err, Bool-cases, Option-cases, inl, inr,
}
use mathlib.Core.List.{append_assoc}
use sysc_tray.Dbusval.{Value, Signal, as_string, name_owner_changed}
use sysc_tray.Watcher.Address.{Key, Address, is_unique_name, AddressError, resolve_registration}
use sysc_tray.Watcher.Registry.{
  find, find-none, removed, Observed, stop, remove, Observed-append, Observed-next,
}
use sysc_tray.Watcher.Server.{
  Server, bus_name, Outcome, Call, register_item, host, signal, register_address, register_result,
  owned_by, others, remove_owner, retire, owner_changed, owner_body, handle_name_owner_changed,
  register_host, register, call, run, quiet, publish_items_locked,
}

unfoldable pub IsStep : Server → Outcome → Type 0
IsStep s o =
    Observed s.generation s.items o.events o.server.generation o.server.items
    × (o.server.generation ≤ s.generation + 1)

register_address-IsStep :
    (s : Server) (a : Address) → s.generation + 1 < 2 ^ 64 → IsStep s (register_address s a)
unfolding IsStep register_address quiet publish_items_locked
register_address-IsStep s a h = elim (Option-cases (find a s.items)) [
  | inl fresh ↦
      rw (fresh, register_address)
        (
          Observed-next s.generation _ _ s.items (find-none a s.items fresh) (omega arith) refl,
          omega arith,
        )
  | inr (k, there) ↦ rw (there, register_address) (stop, omega arith)
]

retire_from :
    (owner : Text) (g : ℕ) (kept ks : List Key)
    → Observed g (kept ++ ks) (map removed (owned_by owner ks)) g (kept ++ others owner ks)
unfolding owned_by others
retire_from owner g kept [] = stop
retire_from owner g kept (k ∷ ks) = elim (Bool-cases (text_eq k.owner owner)) [
  | inl its ↦ rw its (remove k kept (ks) refl (retire_from owner g kept ks))
  | inr other ↦ rw other (
      subst (λ xs. Observed g xs (map removed (owned_by owner ks)) g (kept ++ k ∷ others owner ks))
        (append_assoc kept (k ∷ []) ks)
        (subst (λ ys. Observed g ((kept ++ k ∷ []) ++ ks) (map removed (owned_by owner ks)) g ys)
          (append_assoc kept (k ∷ []) (others owner ks)) (retire_from owner g (kept ++ k ∷ []) ks)))
]

remove_owner-state :
    (owner : Text) (s : Server)
    → let s' = (remove_owner owner s).1 in
      (s'.items ≡ others owner s.items) × (s'.generation ≡ s.generation)
unfolding remove_owner publish_items_locked
remove_owner-state owner s =
    elim (owned_by owner s.items)
      as (λ r.
        let s' : Server = elim r [
          | [] ↦ record s { items = others owner s.items }
          | k ∷ ks ↦ publish_items_locked (record s { items = others owner s.items })
        ] in
        (s'.items ≡ others owner s.items) × (s'.generation ≡ s.generation)) [
          | [] ↦ (refl, refl)
          | k ∷ ks ↦ (refl, refl)
        ]

retire-IsStep : (s : Server) (name : Text) → IsStep s (retire s name)
unfolding IsStep retire
retire-IsStep s name =
    let (items, generation) = remove_owner-state name s in
    rw (items, generation) (retire_from name s.generation [] s.items, omega arith)

quiet-IsStep : (s : Server) (r : Result AddressError (Unit {0})) → IsStep s (quiet s r)
unfolding IsStep quiet
quiet-IsStep s r = (stop, omega arith)

quiet-lost : (s : Server) → IsStep s (quiet (record s { lost = true }) (ok tt))
unfolding IsStep quiet
quiet-lost s = (stop, omega arith)

-- A signal does nothing, or marks the loss of the name, or retires an owner.
module _ (P : Outcome → Type 0) (s : Server) (idle : P (quiet s (ok tt)))
    (lose : P (quiet (record s { lost = true }) (ok tt)))
    (leave : (name : Text) → P (retire s name)) where
  owner_changed_elim : (name new_owner : Text) → P (owner_changed s name new_owner)
  unfolding owner_changed
  owner_changed_elim name new_owner = elim (Bool-cases (not (text_eq new_owner []))) [
    | inl owned ↦ rw owned idle
    | inr left ↦ rw left (elim (Bool-cases (text_eq name bus_name)) [
      | inl own ↦ rw own lose
      | inr item ↦ rw item (elim (Bool-cases (is_unique_name name)) [
        | inl unique ↦ rw unique (leave name)
        | inr known ↦ rw known idle
      ])
    ])
  ]

  owner_body_elim : (body : List Value) → P (owner_body s body)
  unfolding owner_body
  owner_body_elim [] = idle
  owner_body_elim (a ∷ []) = idle
  owner_body_elim (a ∷ b ∷ []) = idle
  owner_body_elim (a ∷ b ∷ c ∷ []) = owner_changed_elim (as_string a) (as_string c)
  owner_body_elim (a ∷ b ∷ c ∷ d ∷ rest) = idle

  pub handle_elim : (v : Signal) → P (handle_name_owner_changed s v)
  unfolding handle_name_owner_changed
  handle_elim v = elim (Bool-cases (text_eq v.name name_owner_changed)) [
    | inl change ↦ rw change (owner_body_elim v.body)
    | inr other ↦ rw other idle
  ]

handle-IsStep : (s : Server) (v : Signal) → IsStep s (handle_name_owner_changed s v)
handle-IsStep s = handle_elim (IsStep s) s (quiet-IsStep s (ok tt)) (quiet-lost s) (retire-IsStep s)

register_host-IsStep : (s : Server) (service : Text) → IsStep s (register_host s service)
unfolding IsStep register_host quiet
register_host-IsStep s service = elim (Bool-cases (text_eq service [])) [
  | inl empty ↦ rw empty (stop, omega arith)
  | inr set ↦ rw set (stop, omega arith)
]

register_result-IsStep :
    (s : Server) (r : Result AddressError Address)
    → s.generation + 1 < 2 ^ 64
    → IsStep s (register_result s r)
unfolding register_result
register_result-IsStep s (err e) h = quiet-IsStep s (err e)
register_result-IsStep s (ok a) h = register_address-IsStep s a h

module _ (path_valid : Text → Bool) where
  pub call-IsStep :
      (s : Server) (c : Call) → s.generation + 1 < 2 ^ 64 → IsStep s (call path_valid s c)
  unfolding call register
  call-IsStep s (register_item sender argument resolve) h =
      register_result-IsStep s (resolve_registration path_valid resolve sender argument) h
  call-IsStep s (host service) h = register_host-IsStep s service
  call-IsStep s (signal v) h = handle-IsStep s v

  -- Whatever the items and the bus do, the changes follow the registry, from any server whose
  -- counter does not run over.
  pub run-Observed :
      (s : Server) (cs : List Call)
      → s.generation + length cs < 2 ^ 64
      → let (s', es) = run path_valid s cs in
        Observed s.generation s.items es s'.generation s'.items
  unfolding run IsStep
  run-Observed s [] h = stop
  run-Observed s (c ∷ cs) h =
      let (o, bound) = call-IsStep s c (omega arith) in
      Observed-append o (run-Observed (call path_valid s c).server cs (omega arith))
