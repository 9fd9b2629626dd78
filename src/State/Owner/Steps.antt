-- ===== src/State/Owner/Steps.antt =====
-- The calls that the owner's goroutine runs, one after the other, and what a publication changes.
use sysc_tray.Prelude.{ℕ, ◌+◌, ◌%◌, ◌^◌, ◌≡◌, List, [], ◌∷◌, arith}
use sysc_tray.Protocol.Types.{Kind, ItemKey, Item, Menu}
use sysc_tray.State.Owner.{
  Env, Owner, Payload, publish, add, update, update_menu, remove, attach, detach, close, submit,
}

pub data Call : Type 0 where
  adds : ItemKey → Call
  updates : ItemKey → Item → Call
  updates_menu : ItemKey → Menu → Call
  removes : ItemKey → Call

-- A call of another goroutine, as `submit` runs it.
unfoldable pub step : {W : Type 0} → Env W → Call → Owner → W → Owner × W
step env (adds k) = submit (add env k)
step env (updates k i) = submit (update env k i)
step env (updates_menu k m) = submit (update_menu env k m)
step env (removes k) = submit (remove env k)

unfoldable pub run : {W : Type 0} → Env W → List Call → Owner → W → Owner × W
run env [] o w = (o, w)
run env (c ∷ cs) o w = let (o', w') = step env c o w in run env cs o' w'

-- The commands that connect and disconnect a presenter, beside the calls.
pub data Event : Type 0 where
  calls : Call → Event
  attaches : ℕ → Event
  detaches : ℕ → Event
  closes : Event

unfoldable pub handle : {W : Type 0} → Env W → Event → Owner → W → Owner × W
handle env (calls c) o w = step env c o w
handle env (attaches id) o w = ((attach id o).0, w)
handle env (detaches id) o w = submit (λ o' w'. (detach id o', w')) o w
handle env closes o w = (close o, w)

unfoldable pub handle_all : {W : Type 0} → Env W → List Event → Owner → W → Owner × W
handle_all env [] o w = (o, w)
handle_all env (e ∷ es) o w = let (o', w') = handle env e o w in handle_all env es o' w'

module _ {W : Type 0} (env : Env W) (kind : Kind) (payload : Payload) (o : Owner) (w : W) where
  pub publish-items : (publish env kind payload o w).0.items ≡ o.items
  unfolding publish
  publish-items = ground arith

  pub publish-order : (publish env kind payload o w).0.order ≡ o.order
  unfolding publish
  publish-order = ground arith

  pub publish-stopped : (publish env kind payload o w).0.stopped ≡ o.stopped
  unfolding publish
  publish-stopped = ground arith

  pub publish-sequence : (publish env kind payload o w).0.sequence ≡ (o.sequence + 1) % 2 ^ 64
  unfolding publish
  publish-sequence = ground arith
