-- ===== src/Watcher/Client.antt =====
-- internal/watcher/attach.go: the host of a watcher that another process owns. An operation changes the
-- items under the lock, and its goroutine, the pump or `attach`, tells the observer of the change when it
-- has released the lock: the list that an operation gives is what its goroutine has to tell, in order, and
-- the lists of several operations together are in the order of the changes, which need not be that in
-- which the observer is told. `resolve` is the answer of the bus at the time of a call.
pub mod Attached
use sysc_tray.Prelude.{
  ℕ, ◌%◌, ◌^◌, ◌+◌, Bool, true, false, List, [], ◌∷◌, ◌++◌, map, Option, none, some, if◌then◌else◌,
  Text, codes, text_eq, Result, ok, err,
}
use sysc_tray.Dbusval.{Value, Signal, as_string, name_owner_changed}
use sysc_tray.Watcher.Address.{Key, Address, AddressError, parse_registered_item}
use sysc_tray.Watcher.Registry.{find, delete, Event, added, removed}
use sysc_tray.Watcher.Server.{bus_name}

pub record Client : Type 0 where
  pub items : List Key
  pub generation : ℕ
  pub attached : Bool
  pub gone : Bool

-- The client after an operation, and what its goroutine tells the observer.
abbrev pub Told : Type 0
Told = Client × List Event

-- `newClient`
abbrev pub new_client : Client
new_client = record { items = []; generation = 0; attached = false; gone = false }

-- The client that `attach` made, before the signals and the first list.
abbrev pub attached_client : Client
attached_client = record { items = []; generation = 0; attached = true; gone = false }

abbrev pub item_registered_name : Text
item_registered_name = codes "org.kde.StatusNotifierWatcher.StatusNotifierItemRegistered"

abbrev pub item_unregistered_name : Text
item_unregistered_name = codes "org.kde.StatusNotifierWatcher.StatusNotifierItemUnregistered"

-- What is to be told of a key that a new one replaces, or that is taken out.
removal : Option Key → List Event
removal none = []
removal (some k) = removed k ∷ []

add_address : Client → Address → Told
unfolding removal
add_address c a =
    let g = (c.generation + 1) % 2 ^ 64 in
    let key : Key = record { owner = a.owner; object_path = a.object_path; generation = g } in
    (
      record c { items = key ∷ delete a c.items; generation = g },
      removal (find a c.items) ++ added key ∷ [],
    )

remove_address : Client → Address → Told
unfolding removal
remove_address c a = (record c { items = delete a c.items }, removal (find a c.items))

-- The early return of an entry that is no address.
when_parsed : (Client → Address → Told) → Client → Result AddressError Address → Told
when_parsed f c (err e) = (c, [])
when_parsed f c (ok a) = f c a

-- `.(string)` of an interface, with its `ok`.
string_value : Value → Option Text
string_value (Value.text t) = some t
string_value v = none

-- The cases of the switch of `handle`.
pub data Announcement : Type 0 where
  owner_changes registered unregistered unknown : Announcement

announcement : Text → Announcement
announcement name =
    if text_eq name name_owner_changed
    then owner_changes
    else if text_eq name item_registered_name
    then registered
    else if text_eq name item_unregistered_name
    then unregistered
    else unknown

-- `markGone` of a loss of the name of the watcher; closing a closed channel is avoided.
name_change : Client → List Value → Client
unfolding as_string
name_change c (name ∷ old ∷ new ∷ []) =
    if text_eq (as_string name) bus_name
    then (if text_eq (as_string new) [] then record c { gone = true } else c)
    else c
name_change c body = c

single : List Value → Option Text
unfolding string_value
single (v ∷ []) = string_value v
single vs = none

-- `drain`, and the report of each key.
drain : Client → Told
drain c = (record c { items = [] }, map removed c.items)

module _ (path_valid : Text → Bool) where
  pub add : Client → Text → (Text → Option Text) → Told
  unfolding add_address when_parsed
  add c entry resolve = when_parsed add_address c (parse_registered_item path_valid resolve entry)

  pub remove : Client → Text → (Text → Option Text) → Told
  unfolding remove_address when_parsed
  remove c entry resolve =
      when_parsed remove_address c (parse_registered_item path_valid resolve entry)

  entry_change :
      (Client → Text → (Text → Option Text) → Told)
      → Client
      → Option Text
      → (Text → Option Text)
      → Told
  entry_change f c none resolve = (c, [])
  entry_change f c (some entry) resolve = f c entry resolve

  pub handle : Client → Signal → (Text → Option Text) → Told
  unfolding announcement name_change entry_change add remove
  handle c signal resolve = elim (announcement signal.name) [
    | owner_changes ↦ (name_change c signal.body, [])
    | registered ↦ entry_change add c (single signal.body) resolve
    | unregistered ↦ entry_change remove c (single signal.body) resolve
    | unknown ↦ (c, [])
  ]

  -- The entries that the watcher has when the host attaches: the loop of `attach`.
  pub add_all : Client → List Text → (Text → Option Text) → Told
  unfolding add
  add_all c [] resolve = (c, [])
  add_all c (e ∷ entries) resolve =
      let (c', es) = add c e resolve in
      let (c'', fs) = add_all c' entries resolve in (c'', es ++ fs)

  -- `close`
  pub close : Client → Told
  unfolding drain
  close c = if c.attached then drain (record c { attached = false }) else (c, [])

-- What happens to an attached host: a signal that the pump reads, or an entry of the first list. The
-- two goroutines take turns at the lock.
pub data Happening : Type 0 where
  signal : Signal → (Text → Option Text) → Happening
  entry : Text → (Text → Option Text) → Happening

module _ (path_valid : Text → Bool) where
  happen : Client → Happening → Told
  unfolding handle add
  happen c (signal s resolve) = handle path_valid c s resolve
  happen c (entry t resolve) = add path_valid c t resolve

  pub run : Client → List Happening → Told
  unfolding happen
  run c [] = (c, [])
  run c (h ∷ hs) = let (c', es) = happen c h in let (c'', fs) = run c' hs in (c'', es ++ fs)
