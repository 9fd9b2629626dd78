-- ===== src/Tests/Service.antt =====
-- The owner of internal/state/owner.go with a sink that records what it takes.
use sysc_tray.Prelude.{ℕ, ◌≤◌, ◌≡◌, refl, ◌↔◌, true, List, [], ◌∷◌, ◌++◌, some, ok, sum_by, arith}
use sysc_tray.Protocol.Types.{Kind, max_pixmap_bytes_aggregate}
use sysc_tray.Protocol.Items.{IconOrder}
use sysc_tray.Protocol.Snapshots.{validate_snapshot, item_bytes}
use sysc_tray.State.Maps.{Address}
use sysc_tray.State.Owner.{
  submit, publish, retire, deliver, save, offer, Env, Entry, Owner, Message, Payload, start,
  register, add, update, update_menu, remove, attach, snapshot_locked,
}
use sysc_tray.State.Owner.Steps.{Call, Event, step, run, handle_all}
use sysc_tray.State.Owner.Invariant.{IsOwner, handle_all-start-IsOwner}
use sysc_tray.State.Owner.Deltas.{IsRecorder}
use sysc_tray.State.Owner.Refinement.{InStep, run-InStep, snapshot_valid_iff}
use sysc_tray.Tests.{mail_key, mail_item, mail_menu}

-- Every message is taken and kept, and every payload has a JSON form.
abbrev pub recorder : Env (List Message)
recorder = record {
  send = λ id m w. (w ++ m ∷ [], true);
  marshals = λ p. true;
  visits = IconOrder.main_attention_overlay;
}

abbrev received : ℕ → List Message → List Message
received id w = w

recorder-IsRecorder : IsRecorder recorder received
recorder-IsRecorder id m w h = refl

-- Mail comes, shows itself and its menu, and goes.
abbrev a_day : List Event
a_day =
    Event.attaches 1
    ∷ Event.calls (Call.adds mail_key)
    ∷ Event.calls (Call.updates mail_key mail_item)
    ∷ Event.calls (Call.updates_menu mail_key mail_menu)
    ∷ Event.calls (Call.removes mail_key)
    ∷ []

handle_all-start-IsOwner_example : IsOwner (handle_all recorder a_day start []).0
handle_all-start-IsOwner_example = handle_all-start-IsOwner recorder a_day []

start-IsOwner : IsOwner start
unfolding handle_all
start-IsOwner = handle_all-start-IsOwner recorder [] []

abbrev one_item : List Call
one_item = Call.adds mail_key ∷ Call.updates mail_key mail_item ∷ Call.removes mail_key ∷ []

abbrev attached : Owner × List Message
attached = run recorder one_item (attach 1 start).0 []

publish-sink :
    (kind : Kind) (p : Payload) (o : Owner) (w : List Message)
    → (publish recorder kind p o w).0.sink ≡ o.sink
unfolding publish deliver
publish-sink kind p o w = ground arith

retire-sink :
    (a : Address) (e : Entry) (o : Owner) (w : List Message)
    → (retire recorder a e o w).0.sink ≡ o.sink
unfolding retire
retire-sink a e o w = grind (arith, publish-sink)

-- The recorder stays connected.
step-sink : (c : Call) (o : Owner) (w : List Message) → (step recorder c o w).0.sink ≡ o.sink
unfolding step submit add update update_menu remove register save offer
step-sink (Call.adds k) o w = grind (arith, retire-sink)
step-sink (Call.updates k i) o w = grind (arith, publish-sink)
step-sink (Call.updates_menu k m) o w = grind (arith, publish-sink)
step-sink (Call.removes k) o w = grind (arith, retire-sink)

run-sink : (cs : List Call) (o : Owner) (w : List Message) → (run recorder cs o w).0.sink ≡ o.sink
unfolding run
run-sink [] o w = refl
run-sink (c ∷ cs) o w =
    ground (arith, step-sink c o w, run-sink cs (step recorder c o w).0 (step recorder c o w).1)

run-InStep_example :
    ((attach 1 start).1 ≡ some (snapshot_locked start))
    × InStep received 1 (snapshot_locked start) [] attached.0 attached.1
unfolding start attach
run-InStep_example =
    run-InStep recorder received recorder-IsRecorder 1 start [] one_item start-IsOwner refl
      (run-sink one_item (attach 1 start).0 [])

-- The state before Mail goes.
abbrev busy_day : List Event
busy_day = Event.calls (Call.adds mail_key) ∷ Event.calls (Call.updates mail_key mail_item) ∷ []

abbrev busy : Owner
busy = (handle_all recorder busy_day start []).0

busy-IsOwner : IsOwner busy
busy-IsOwner = handle_all-start-IsOwner recorder busy_day []

snapshot_valid_iff_example :
    (validate_snapshot IconOrder.main_attention_overlay (snapshot_locked busy) ≡ ok tt)
    ↔ (sum_by item_bytes (snapshot_locked busy).items ≤ max_pixmap_bytes_aggregate)
snapshot_valid_iff_example = snapshot_valid_iff busy busy-IsOwner IconOrder.main_attention_overlay
