-- ===== src/Watcher/Client/Attached.antt =====
-- How the items of the host of internal/watcher/attach.go change.
use mathlib.Core.List.{append_assoc}
use sysc_tray.Prelude.{
  ℕ, ◌≡◌, ◌≤◌, ◌<◌, ◌^◌, ◌+◌, refl, sym, subst, ap, ◌∙◌, Bool, List, [], ◌∷◌, ◌++◌, map, Option,
  none, some, arith, Text, text_eq, length, Result, ok, err, Bool-cases, Option-cases, inl, inr,
}
use sysc_tray.Dbusval.{Value, as_string}
use sysc_tray.Watcher.Address.{Key, Address, AddressError, parse_registered_item}
use sysc_tray.Watcher.Registry.{
  address_of, find, find-none, find-some, delete, delete-middle, delete-IsAbsent, delete-absent,
  removed, Observed, stop, remove as retire, Observed-next, Observed-append, IsRegistry,
  Observed-IsRegistry, Observed-Rises, Rises,
}
use sysc_tray.Watcher.Server.{bus_name}
use sysc_tray.Watcher.Client.{
  Client, Told, attached_client, removal, add_address, remove_address, when_parsed, announcement,
  Announcement, owner_changes, registered, unregistered, unknown, name_change, single, drain, add,
  remove, entry_change, handle, close, Happening, signal, entry, happen, run,
}

IsStep : Client → Told → Type 0
IsStep c (c', es) =
    Observed c.generation c.items es c'.generation c'.items
    × (c'.generation ≤ c.generation + 1)
    × (c'.attached ≡ c.attached)

removal_lem :
    (g : ℕ) (a : Address) (ks : List Key)
    → IsRegistry g ks
    → Observed g ks (removal (find a ks)) g (delete a ks)
unfolding removal
removal_lem g a ks h = elim (Option-cases (find a ks)) [
  | inl absent ↦ rw (absent, delete-absent a ks (find-none a ks absent)) stop
  | inr (k, there) ↦
      let (same, xs, ys, split) = find-some a ks k there in
      let gone : delete a ks ≡ xs ++ ys =
        ap (λ b. delete b ks) (sym same)
        ∙ ap (delete (address_of k)) split
        ∙ delete-middle g k xs ys (subst (IsRegistry g) split h) in
      rw (there, gone) (retire k xs ys split stop)
]

module _ (c : Client) (known : IsRegistry c.generation c.items)
    (room : c.generation + 1 < 2 ^ 64) where
  idle-IsStep : IsStep c (c, [])
  unfolding IsStep
  idle-IsStep = (stop, omega arith, refl)

  add_address-IsStep : (a : Address) → IsStep c (add_address c a)
  unfolding IsStep add_address
  add_address-IsStep a = (
    Observed-append (removal_lem c.generation a c.items known) (
        Observed-next c.generation _ _ (delete a c.items) (delete-IsAbsent a c.items) (omega arith)
          refl),
    omega arith,
    refl,
  )

  remove_address-IsStep : (a : Address) → IsStep c (remove_address c a)
  unfolding IsStep remove_address
  remove_address-IsStep a = (removal_lem c.generation a c.items known, omega arith, refl)

  when_parsed-IsStep :
      (f : Client → Address → Told) (r : Result AddressError Address)
      → ((a : Address) → IsStep c (f c a))
      → IsStep c (when_parsed f c r)
  unfolding when_parsed
  when_parsed-IsStep f (err e) h = idle-IsStep
  when_parsed-IsStep f (ok a) h = h a

  name_change-IsStep : (body : List Value) → IsStep c (name_change c body, [])
  unfolding IsStep name_change
  name_change-IsStep [] = idle-IsStep
  name_change-IsStep (a ∷ []) = idle-IsStep
  name_change-IsStep (a ∷ b ∷ []) = idle-IsStep
  name_change-IsStep (a ∷ b ∷ d ∷ []) = elim (Bool-cases (text_eq (as_string a) bus_name)) [
    | inl watcher ↦ rw watcher (elim (Bool-cases (text_eq (as_string d) [])) [
      | inl lost ↦ rw lost (stop, omega arith, refl)
      | inr owned ↦ rw owned idle-IsStep
    ])
    | inr other ↦ rw other idle-IsStep
  ]
  name_change-IsStep (a ∷ b ∷ d ∷ e ∷ rest) = idle-IsStep

  module _ (path_valid : Text → Bool) where
    add-IsStep : (t : Text) (resolve : Text → Option Text) → IsStep c (add path_valid c t resolve)
    unfolding add
    add-IsStep t resolve =
        when_parsed-IsStep add_address (parse_registered_item path_valid resolve t)
          add_address-IsStep

    remove-IsStep :
        (t : Text) (resolve : Text → Option Text) → IsStep c (remove path_valid c t resolve)
    unfolding remove
    remove-IsStep t resolve =
        when_parsed-IsStep remove_address (parse_registered_item path_valid resolve t)
          remove_address-IsStep

    entry_change-IsStep :
        (f : Client → Text → (Text → Option Text) → Told) (t : Option Text)
        (resolve : Text → Option Text)
        → ((u : Text) → IsStep c (f c u resolve))
        → IsStep c (entry_change path_valid f c t resolve)
    unfolding entry_change
    entry_change-IsStep f none resolve h = idle-IsStep
    entry_change-IsStep f (some t) resolve h = h t

    happen-IsStep : (h : Happening) → IsStep c (happen path_valid c h)
    unfolding happen handle
    happen-IsStep (entry t resolve) = add-IsStep t resolve
    happen-IsStep (signal s resolve) = go (announcement s.name)
      where
        go :
            (a : Announcement)
            → IsStep c (elim a [
              | owner_changes ↦ (name_change c s.body, [])
              | registered ↦ entry_change path_valid (add path_valid) c (single s.body) resolve
              | unregistered ↦ entry_change path_valid (remove path_valid) c (single s.body) resolve
              | unknown ↦ (c, [])
            ])
        go owner_changes = name_change-IsStep s.body
        go registered =
            entry_change-IsStep (add path_valid) (single s.body) resolve (λ u. add-IsStep u resolve)
        go unregistered =
            entry_change-IsStep (remove path_valid) (single s.body) resolve
              (λ u. remove-IsStep u resolve)
        go unknown = idle-IsStep

module _ (path_valid : Text → Bool) where
  pub run-Observed :
      (c : Client) (hs : List Happening)
      → IsRegistry c.generation c.items
      → c.generation + length hs < 2 ^ 64
      → let (c', es) = run path_valid c hs in
        Observed c.generation c.items es c'.generation c'.items × (c'.attached ≡ c.attached)
  unfolding run IsStep
  run-Observed c [] known room = (stop, refl)
  run-Observed c (h ∷ hs) known room =
      let (o, bound, same) = happen-IsStep c known (omega arith) path_valid h in
      let (later, kept) =
        run-Observed (happen path_valid c h).0 hs (Observed-IsRegistry o known) (omega arith) in
      (Observed-append o later, kept ∙ same)

  pub drain_all : (g : ℕ) (ks : List Key) → Observed g ks (map removed ks) g []
  drain_all g [] = stop
  drain_all g (k ∷ ks) = retire k [] ks refl (drain_all g ks)

  -- The changes of a host, to its close.
  pub close_lem :
      (hs : List Happening)
      → length hs < 2 ^ 64
      → let (c, es) = run path_valid attached_client hs in
        let (c', fs) = close path_valid c in
        Observed 0 [] (es ++ fs) c'.generation c'.items × Rises 0 (es ++ fs) × (c'.items ≡ [])
  unfolding close drain
  close_lem hs room =
      let (o, attached) = run-Observed attached_client hs tt (omega arith) in
      let c = (run path_valid attached_client hs).0 in
      let all = Observed-append o (drain_all c.generation c.items) in
      rw attached (all, Observed-Rises all, refl)

  pub run-append :
      (c : Client) (hs is : List Happening)
      → let (c', es) = run path_valid c hs in
        let (c'', fs) = run path_valid c' is in run path_valid c (hs ++ is) ≡ (c'', es ++ fs)
  unfolding run
  run-append c [] is = refl
  run-append c (h ∷ hs) is =
      let first = happen path_valid c h in
      let mid = run path_valid first.0 hs in
      ground
        (arith, run-append first.0 hs is, append_assoc first.1 mid.1 (run path_valid mid.0 is).1)

  pub run-nil : (c : Client) → run path_valid c [] ≡ (c, [])
  unfolding run
  run-nil c = refl
