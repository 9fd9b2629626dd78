-- ===== src/State/Owner/Refinement.antt =====
-- internal/state/owner.go refines what a presenter is promised: a baseline, then the changes.
use mathlib.Core.Path.{fun_ext}
use sysc_tray.Prelude.{
  ℕ, ◌≤◌, ◌≡◌, refl, ap, sym, ◌↔◌, false, List, [], ◌∷◌, ◌++◌, some, arith, length, All, Fresh,
  Distinct, sum_by, ok, Option-cases, Bool-cases, inl, inr,
}
use sysc_tray.Prelude.Shuffles.{
  Shuffle-length, Shuffle-All, Shuffle-sym, Shuffle-map, Shuffle-Distinct,
}
use sysc_tray.Protocol.Types.{Item, ItemKey, Snapshot, max_pixmap_bytes_aggregate}
use sysc_tray.Protocol.Items.{IconOrder, IsItem}
use sysc_tray.Protocol.Snapshots.{validate_snapshot, validate_snapshot_iff, item_bytes, item_keys}
use sysc_tray.State.Maps.{Address, address_of, lookup}
use sysc_tray.State.Clone.{clone_item-eq}
use sysc_tray.State.Owner.{Env, Owner, Message, attach, snapshot_locked, published_items}
use sysc_tray.State.Owner.Steps.{Call, run}
use sysc_tray.State.Owner.Invariant.{IsOwner, run-IsOwner}
use sysc_tray.State.Owner.Deltas.{replay, Follows, IsRecorder}
use sysc_tray.State.Owner.Contract.{run-Delta}
use sysc_tray.State.Owner.Baseline.{
  first_at, first_at-snapshot, sort_items-Shuffle, addresses, Distinct-published,
}

-- The presenter that attached with `baseline` has the owner's state: `messages` are all that its
-- sink took since `w`, numbered without a gap from the baseline's number to the owner's, and replaying
-- them over the baseline shows at each address what a new baseline would show.
pub record InStep {W : Type 0} (received : ℕ → W → List Message) (id : ℕ) (baseline : Snapshot)
    (w : W) (o : Owner) (w' : W) : Type 0 where
  pub messages : List Message
  pub queued : received id w' ≡ received id w ++ messages
  pub numbered : Follows baseline.sequence messages o.sequence
  pub same :
      (a : Address)
      → replay messages (first_at baseline.items) a ≡ first_at (snapshot_locked o).items a

attach_running :
    (id : ℕ) (o : Owner)
    → o.stopped ≡ false
    → attach id o ≡ (record o { sink = some id }, some (snapshot_locked o))
unfolding attach
attach_running id o h = ground arith

module _ {W : Type 0} (env : Env W) (received : ℕ → W → List Message) where
  connected-InStep :
      IsRecorder env received
      → (id : ℕ) (o : Owner) (w : W) (cs : List Call) → IsOwner o
      → let p = run env cs (record o { sink = some id }) w in
        p.0.sink ≡ some id → InStep received id (snapshot_locked o) w p.0 p.1
  unfolding snapshot_locked
  connected-InStep records id o w cs t still =
      let o1 = record o { sink = some id } in
      let d = run-Delta env received records id cs o1 w t refl still in
      let after = first_at-snapshot (run env cs o1 w).0 (run-IsOwner env cs o1 w t) in
      record {
        messages = d.messages;
        queued = d.queued;
        numbered = d.numbered;
        same = λ a. rw (fun_ext (first_at-snapshot o t), after a) (λ i. sym d.views i a);
      }

  -- Let an owner that is not stopped give a presenter its baseline, and let any calls follow. If the
  -- presenter's sink is still the connected one after them, the presenter is in step.
  pub run-InStep :
      IsRecorder env received
      → (id : ℕ) (o : Owner) (w : W) (cs : List Call) → IsOwner o
      → o.stopped ≡ false
      → (run env cs (attach id o).0 w).0.sink ≡ some id
      → (attach id o).1 ≡ some (snapshot_locked o)
        × InStep received id
            (snapshot_locked o)
            w
            (run env cs (attach id o).0 w).0
            (run env cs (attach id o).0 w).1
  run-InStep records id o w cs t running still =
      rw (attach_running id o running)
        (refl, connected-InStep records id o w cs t (rw (attach_running id o running) at still))

Fresh-key :
    (k : ItemKey) (is : List Item) → Fresh (address_of k) (addresses is) → Fresh k (item_keys is)
Fresh-key k [] h = tt
Fresh-key k (i ∷ is) h = ((λ e. h.0 (ap address_of e)), Fresh-key k is h.1)

Distinct-keys : (is : List Item) → Distinct (addresses is) → Distinct (item_keys is)
Distinct-keys [] h = tt
Distinct-keys (i ∷ is) h = (Fresh-key i.key is h.0, Distinct-keys is h.1)

module _ (o : Owner) (t : IsOwner o) where
  published_items-IsItem : (spots : List Address) → All IsItem (published_items o spots)
  unfolding published_items
  published_items-IsItem [] = tt
  published_items-IsItem (b ∷ bs) = elim (Option-cases (lookup b o.items)) [
    | inl absent ↦ rw (absent, published_items) (published_items-IsItem bs)
    | inr (e, known) ↦ elim (Bool-cases e.published) [
      | inl live ↦
          rw (known, published_items, live)
            (rw (clone_item-eq e.item) ((t.held b e known).valid live), published_items-IsItem bs)
      | inr hidden ↦ rw (known, published_items, hidden) (published_items-IsItem bs)
    ]
  ]

  length-published_items : (spots : List Address) → length (published_items o spots) ≤ length spots
  unfolding published_items
  length-published_items [] = omega arith
  length-published_items (b ∷ bs) = ground (arith, length-published_items bs)

  -- The snapshot of an owner passes the protocol's validator exactly when its items carry at most
  -- 8 MiB of pixmaps in all: the number of items, their validity and their keys are always right, and
  -- nothing in the owner bounds the total.
  pub snapshot_valid_iff :
      (order : IconOrder)
      → (validate_snapshot order (snapshot_locked o) ≡ ok tt)
        ↔ (sum_by item_bytes (snapshot_locked o).items ≤ max_pixmap_bytes_aggregate)
  unfolding snapshot_locked
  snapshot_valid_iff order =
      let s = Shuffle-sym (sort_items-Shuffle (published_items o o.order)) in
      (
        λ h. ((validate_snapshot_iff order (snapshot_locked o)).0 h).budget,
        λ h. (validate_snapshot_iff order (snapshot_locked o)).1 (record {
          few = omega (arith, Shuffle-length s, length-published_items o.order, t.size, t.few);
          valid = Shuffle-All IsItem s (published_items-IsItem o.order);
          keys =
              Shuffle-Distinct (Shuffle-map (λ (i : Item). i.key) s)
                (Distinct-keys (published_items o o.order) (Distinct-published o t o.order t.once));
          budget = h;
        }),
      )
