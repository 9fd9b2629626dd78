-- ===== src/App/Steps/Serve.antt =====
-- internal/app/run.go with internal/state/owner.go: the service and the owner that it calls.
pub mod Quiet
pub mod Carried
pub mod Backed
use sysc_tray.Prelude.{◌≡◌, Bool, true, false, ◌&&◌, ◌||◌, List, [], ◌∷◌}
use sysc_tray.Protocol.Types.{ItemKey}
use sysc_tray.Protocol.Fields.{key_eq}
use sysc_tray.Ownership.{System}
use sysc_tray.State.Owner.{Env, Owner}
use sysc_tray.State.Owner.Steps.{Call, run as run_calls}
use sysc_tray.App.{
  App, Effect, owner_add, owner_remove, owner_update, owner_update_menu, item_closed, menu_closed,
  Task, keeping, dropping,
}
use sysc_tray.App.Steps.{
  Step, adds, inspects, removes, reads, updates, menu_lives, closes, take_step,
}

-- The calls of the owner among what a step does outside.
unfoldable pub calls_of : List Effect → List Call
calls_of [] = []
calls_of (owner_add k ∷ es) = Call.adds k ∷ calls_of es
calls_of (owner_remove k ∷ es) = Call.removes k ∷ calls_of es
calls_of (owner_update k i ∷ es) = Call.updates k i ∷ calls_of es
calls_of (owner_update_menu k m ∷ es) = Call.updates_menu k m ∷ calls_of es
calls_of (item_closed n ∷ es) = calls_of es
calls_of (menu_closed m ∷ es) = calls_of es

-- The service with its owner: the calls of a step are made before the next step.
unfoldable pub serve_all :
    {W : Type 0} → Env W → System → List Step → App → Owner → W → App × Owner × W
unfolding calls_of
serve_all env system [] a o w = (a, o, w)
serve_all env system (s ∷ ss) a o w =
    let (a', es) = take_step system a s in
    let (o', w') = run_calls env (calls_of es) o w in serve_all env system ss a' o' w'

-- The step is not a `Close`.
abbrev pub Serves : Step → Type 0
Serves closes = ⊥
Serves s = Unit

unfoldable pub waits : ItemKey → Task → Bool
waits j (keeping k) = key_eq k j
waits j (dropping w k owned) = owned && key_eq k j
waits j t = false

-- `ItemAdded` has told the owner of the key and has not kept its worker, or `dropWorker` has taken the worker
-- and has not told the owner yet.
unfoldable pub awaited : ItemKey → List Task → Bool
unfolding waits
awaited j [] = false
awaited j (t ∷ ts) = waits j t || awaited j ts
