-- ===== src/Item/Proxy.antt =====
-- internal/item/proxy.go: the reader of one item. `dirty` is the slot of `wake`, and `cancelled` that
-- callCtx has ended. What is published and what is called are lists, in order. The bus library is a
-- parameter: `store` is Call.Store into the map of properties, and the replies are given.
pub mod Read
pub mod Started
use sysc_tray.Prelude.{
  ℕ, ◌+◌, Bool, true, false, not, ◌&&◌, List, [], ◌∷◌, ◌++◌, Option, none, some, if◌then◌else◌,
  Text, codes, text_eq, Result, ok, err, ℤ, ◌==◌,
}
use sysc_tray.Dbusval.{
  Value, Signal, as_string, name_owner_changed, BusCall, Reply, canceled, deadline, failed, replied,
}
use sysc_tray.Protocol.Types.{
  ItemKey, Item, ErrorCode, invalid, stale_item, unavailable, ScrollOrientation,
}
use sysc_tray.Protocol.Fields.{key_eq}
use sysc_tray.Protocol.Items.{IconOrder, validate_item}
use sysc_tray.Item.Limiter.{Limiter, Use, reserves, forgets, reserve, forget}
use sysc_tray.Item.Model.{Props, normalize}

-- `Result.Err`, without its text.
pub data Loss : Type 0 where
  owner_left read_failed undecodable invalid_state : Loss

pub record Reading : Type 0 where
  pub key : ItemKey
  pub read : Result Loss Item

pub record Proxy : Type 0 where
  pub key : ItemKey
  pub dirty : Bool
  pub cancelled : Bool

-- A proxy as `Start` leaves it.
abbrev pub started : ItemKey → Proxy
started k = record { key = k; dirty = true; cancelled = false }

unfoldable pub trigger : Proxy → Proxy
trigger p = record p { dirty = true }

departs : Text → List Value → Bool
unfolding as_string
departs owner (name ∷ old ∷ new ∷ []) = text_eq (as_string name) owner && text_eq (as_string new) []
departs owner body = false

-- `ownerLeft`
pub left_bus : Text → Signal → Bool
unfolding departs
left_bus owner s = if text_eq s.name name_owner_changed then departs owner s.body else false

pub loss : ItemKey → Loss → Reading
loss k e = record { key = k; read = err e }

-- `pump` over the signals that arrive: it ends with the departure of the owner.
pub pump : Proxy → List Signal → Proxy × List Reading
unfolding left_bus trigger loss
pump p [] = (p, [])
pump p (s ∷ ss) =
    let rest = pump (if text_eq s.path p.key.object_path then trigger p else p) ss in
    if left_bus p.key.owner s then (p, loss p.key owner_left ∷ []) else rest

-- `normalize` and the check of what it made.
publish_props : (Text → Bool) → IconOrder → ItemKey → Props → Reading
unfolding loss
publish_props path_valid order k props =
    let item = normalize path_valid k props in
    elim (validate_item order item) [
      | err e ↦ loss k invalid_state
      | ok t ↦ record { key = k; read = ok item }
    ]

publish_body : (Text → Bool) → IconOrder → ItemKey → Option Props → Reading
unfolding publish_props loss
publish_body path_valid order k none = loss k undecodable
publish_body path_valid order k (some props) = publish_props path_valid order k props

module _ (path_valid : Text → Bool) (order : IconOrder) (store : List Value → Option Props) where
  pub refresh : Proxy → Reply → Proxy × List Reading
  unfolding publish_body trigger loss
  refresh p canceled = (p, [])
  refresh p deadline = (if p.cancelled then p else trigger p, [])
  refresh p failed = (p, loss p.key read_failed ∷ [])
  refresh p (replied body) = (p, publish_body path_valid order p.key (store body) ∷ [])

  -- A round of `loop` that the limiter admits; with an empty slot it does not start.
  pub round : Proxy → Reply → Proxy × List Reading
  unfolding refresh
  round p r = if p.dirty then refresh (record p { dirty = false }) r else (p, [])

item_method : Text → Text
item_method member = codes "org.kde.StatusNotifierItem." ++ member

item_call : Proxy → Text → List Value → BusCall
unfolding item_method
item_call p member args = record {
  destination = p.key.owner;
  path = p.key.object_path;
  method = item_method member;
  arguments = args;
}

-- What a command asks the bus, and what it answers the presenter.
pub record Invoked : Type 0 where
  pub calls : List BusCall
  pub answer : Result ErrorCode (Unit {0})

answered : Reply → Result ErrorCode (Unit {0})
answered (replied body) = ok tt
answered r = err unavailable

pub invoke : Proxy → ItemKey → Text → List Value → Reply → Invoked
unfolding answered item_call
invoke p k member args reply =
    if key_eq k p.key
    then record { calls = item_call p member args ∷ []; answer = answered reply }
    else record { calls = []; answer = err stale_item }

pub activate : Proxy → ItemKey → ℤ → ℤ → Reply → Invoked
unfolding invoke
activate p k x y = invoke p k (codes "Activate") (Value.int x ∷ Value.int y ∷ [])

pub secondary_activate : Proxy → ItemKey → ℤ → ℤ → Reply → Invoked
unfolding invoke
secondary_activate p k x y = invoke p k (codes "SecondaryActivate") (Value.int x ∷ Value.int y ∷ [])

pub scroll : Proxy → ItemKey → ℤ → ScrollOrientation → Reply → Invoked
unfolding invoke
scroll p k delta ScrollOrientation.vertical =
    invoke p k (codes "Scroll") (Value.int delta ∷ Value.text (codes "vertical") ∷ [])
scroll p k delta ScrollOrientation.horizontal =
    invoke p k (codes "Scroll") (Value.int delta ∷ Value.text (codes "horizontal") ∷ [])
scroll p k delta o = λ reply. record { calls = []; answer = err invalid }

use_of : Use → Limiter → Limiter
use_of (reserves k now) l = (reserve k now l).0
use_of (forgets k) l = forget k l

after : List Use → Limiter → Limiter
unfolding use_of
after [] l = l
after (u ∷ us) l = after us (use_of u l)

-- `await`: a reading of the clock each time that the timer fires, with what other items did to the
-- limiter before it; the end of the list is the end of the proxy.
pub await : ItemKey → Limiter → List (List Use × ℕ) → Limiter × Bool
unfolding after
await k l [] = (l, false)
await k l ((others, now) ∷ rest) =
    let (l', wait) = reserve k now (after others l) in
    let later = await k l' rest in if wait == 0 then (l', true) else later
