-- ===== src/Presenter/Server.antt =====
-- internal/presenter/server.go: how a connection takes the place of another, over the state owner. A
-- connection is a number, by which the owner knows its sink, too. `prepares` says of a snapshot whether
-- the frames of the hello and of it can be made and the connection started with them.
pub mod Lifecycle
use sysc_tray.Prelude.{
  ℕ, ◌≡◌, ◌≢◌, ◌⊎◌, inl, inr, refl, arith, ◌+◌, ◌%◌, ◌^◌, ◌==◌, Bool, true, false, not, ◌&&◌, List,
  ◌∷◌, Option, none, some, if◌then◌else◌, if_elim, ap, sym, subst, ◌∙◌, is_ok,
}
use sysc_tray.Protocol.Types.{Snapshot}
use sysc_tray.Protocol.Items.{IconOrder}
use sysc_tray.Protocol.Snapshots.{validate_snapshot}
use sysc_tray.State.Owner.{Owner, attach, detach, snapshot_locked}

pub record Server : Type 0 where
  pub owner : Owner
  pub current : Option ℕ
  pub next_generation : ℕ
  pub failed : List ℕ

fail : ℕ → Server → Server
fail id s = record s { failed = id ∷ s.failed }

pub released : ℕ → Option ℕ → Option ℕ
released id none = none
released id (some c) = if c == id then none else some c

-- `connectionDone`, and the failure in front of it: what `handle` does at its end.
pub connection_done : ℕ → Server → Server
unfolding fail released
connection_done id s = record (fail id s) {
  current = released id s.current;
  owner = detach id s.owner;
}

pub replaced : ℕ → Option ℕ → List ℕ → List ℕ
replaced id none failed = failed
replaced id (some old) failed = if old == id then failed else old ∷ failed

-- The newer presenter replaces the one before.
pub take_over : ℕ → Server → Server
unfolding replaced
take_over id s = record s { current = some id; failed = replaced id s.current s.failed }

attach_running :
    (id : ℕ) (o : Owner)
    → o.stopped ≡ false
    → attach id o ≡ (record o { sink = some id }, some (snapshot_locked o))
unfolding attach
attach_running id o h = ground arith

detach_clears :
    (id : ℕ) (o : Owner) → (o.sink ≡ some id) ⊎ (o.sink ≡ none) → (detach id o).sink ≡ none
unfolding detach
detach_clears id o h = ground arith

released_other : (id old : ℕ) → old ≢ id → released id (some old) ≡ some old
unfolding released
released_other id old other = ground arith

-- The end of a connection that is not the current one, and may be the sink.
done_lem :
    (id old : ℕ) (s : Server)
    → s.current ≡ some old
    → old ≢ id
    → (s.owner.sink ≡ some id) ⊎ (s.owner.sink ≡ none)
    → let s' = connection_done id s in
      (s'.current ≡ some old) × (s'.owner.sink ≡ none) × (s'.failed ≡ id ∷ s.failed)
unfolding connection_done fail
done_lem id old s now other sink =
    (ap (released id) now ∙ released_other id old other, detach_clears id s.owner sink, refl)

module _ (order : IconOrder) (prepares : Snapshot → Bool) where
  -- What follows the answer of `Attach`; a return runs the deferred end.
  attached : ℕ → Server → Option Snapshot → Server
  unfolding connection_done take_over
  attached id s none = connection_done id s
  attached id s (some snapshot) =
      if not (is_ok (validate_snapshot order snapshot))
      then connection_done id s
      else if prepares snapshot
      then take_over id s
      else connection_done id (record s { owner = detach id s.owner })

  entered : ℕ → Server → Owner × Option Snapshot → Server
  unfolding attached
  entered id s (owner, snapshot) =
      attached id (record s { owner = owner; next_generation = (s.next_generation + 1) % 2 ^ 64 })
        snapshot

  -- `handle` of an admitted peer up to the start of the writer, or to its end, with no other handshake between
  -- Attach and the change of the current connection.
  pub enter : ℕ → Server → Server
  unfolding entered
  enter id s = entered id s (attach id s.owner)

  unfoldable pub passes : Snapshot → Bool
  passes snapshot = is_ok (validate_snapshot order snapshot) && prepares snapshot

  -- What `handle` leaves of a server that had another connection.
  Leaves : ℕ → ℕ → Server → Snapshot → Server → Type 0
  Leaves id old s snapshot s' =
      ((passes snapshot ≡ true)
        × (s'.current ≡ some id)
        × (s'.owner.sink ≡ some id)
        × (s'.failed ≡ old ∷ s.failed))
      ⊎ ((passes snapshot ≡ false)
          × (s'.current ≡ some old)
          × (s'.owner.sink ≡ none)
          × (s'.failed ≡ id ∷ s.failed))

  attached-Leaves :
      (id old : ℕ) (s : Server) (snapshot : Snapshot)
      → s.current ≡ some old
      → old ≢ id
      → s.owner.sink ≡ some id
      → Leaves id old s snapshot (attached id s (some snapshot))
  unfolding Leaves attached passes take_over replaced
  attached-Leaves id old s snapshot now other sink =
      if_elim (Leaves id old s snapshot) (not (is_ok (validate_snapshot order snapshot))) _ _
        (λ bad.
          let (kept, cleared, ended) = done_lem id old s now other (inl sink) in
          inr (ground arith, kept, cleared, ended))
        (λ good.
          if_elim (Leaves id old s snapshot) (prepares snapshot) _ _
            (λ can. inl (ground arith, refl, sink, ground (arith, now)))
            (λ cannot.
              let (kept, cleared, ended) =
                done_lem id old (record s { owner = detach id s.owner }) now other
                  (inr (detach_clears id s.owner (inl sink))) in
              inr (ground arith, kept, cleared, ended)))

  -- While the state owner runs, a connection that is admitted next to another one: if the snapshot is
  -- valid and can be sent, the new one is served, and the other one is failed; if not, the other one
  -- stays current and is not failed, but the owner has no sink any more.
  pub enter_lem :
      (id old : ℕ) (s : Server)
      → s.owner.stopped ≡ false
      → s.current ≡ some old
      → old ≢ id
      → let s' = enter id s in
        let p = passes (snapshot_locked s.owner) in
        ((p ≡ true)
          × (s'.current ≡ some id)
          × (s'.owner.sink ≡ some id)
          × (s'.failed ≡ old ∷ s.failed))
        ⊎ ((p ≡ false)
            × (s'.current ≡ some old)
            × (s'.owner.sink ≡ none)
            × (s'.failed ≡ id ∷ s.failed))
  unfolding enter entered Leaves
  enter_lem id old s running now other =
      let o : Owner = record s.owner { sink = some id } in
      let snapshot = snapshot_locked s.owner in
      let next : Server = record s {
        owner = o;
        next_generation = (s.next_generation + 1) % 2 ^ 64;
      } in
      subst (λ r. Leaves id old s snapshot (entered id s r))
        (sym (attach_running id s.owner running))
        (attached-Leaves id old next snapshot now other refl)
