-- ===== src/Watcher/Server.antt =====
-- internal/watcher/server.go: the watcher of the session. A call answers with the server after it, which it
-- leaves under the lock, and with what its goroutine does next, when it has released the lock: what it
-- tells the observer and the signals that it sends, each in order. A turn is a call, or one call of the
-- observer by a goroutine that has changed the server before. A property of the bus object is a
-- field of `Props`, `none` before they are exported; `done` has room for one loss of the name.
pub mod Served
pub mod Published
pub mod Told
use sysc_tray.Prelude.{
  ℕ, zero, suc, ◌≡◌, ◌%◌, ◌^◌, ◌+◌, Bool, true, false, not, ◌&&◌, List, [], ◌∷◌, ◌++◌, map, Option,
  none, some, if◌then◌else◌, Text, codes, text_eq, length, Result, ok, err, contains, leb, ltb,
  ◌==◌,
}
use sysc_tray.Dbusval.{Value, Signal, as_string, name_owner_changed}
use sysc_tray.Watcher.Address.{
  Key, Address, AddressError, empty_argument, address_text, is_unique_name, resolve_registration,
}
use sysc_tray.Watcher.Registry.{address_of, find, Event, added, removed}
use sysc_tray.Watcher.Telling.{Telling, promise, tell}

pub record Props : Type 0 where
  pub registered_items : List Text
  pub host_registered : Bool

pub record Server : Type 0 where
  pub items : List Key
  pub generation : ℕ
  pub host_registered : Bool
  pub hosts : List Text
  pub served : Bool
  pub props : Option Props
  pub lost : Bool

pub data Emitted : Type 0 where
  item_registered item_unregistered : Text → Emitted
  host_registered : Emitted

pub record Outcome : Type 0 where
  pub server : Server
  pub events : List Event
  pub signals : List Emitted
  pub reply : Result AddressError (Unit {0})

abbrev pub bus_name : Text
bus_name = codes "org.kde.StatusNotifierWatcher"

-- `NewServer`
abbrev pub new_server : Server
new_server = record {
  items = [];
  generation = 0;
  host_registered = false;
  hosts = [];
  served = false;
  props = none;
  lost = false;
}

-- The order of strings.
text_le : Text → Text → Bool
text_le [] t = true
text_le (c ∷ s) [] = false
text_le (c ∷ s) (d ∷ t) = if c == d then text_le s t else ltb c d

insert_text : Text → List Text → List Text
unfolding text_le
insert_text t [] = t ∷ []
insert_text t (u ∷ us) = let rest = insert_text t us in if text_le t u then t ∷ u ∷ us else u ∷ rest

-- `sort.Strings`
sort_texts : List Text → List Text
unfolding insert_text
sort_texts [] = []
sort_texts (t ∷ ts) = insert_text t (sort_texts ts)

unfoldable pub item_addresses : List Key → List Text
unfolding sort_texts
item_addresses ks = sort_texts (map (λ k. address_text (address_of k)) ks)

set_items : List Text → Option Props → Option Props
set_items ts none = none
set_items ts (some p) = some (record { registered_items = ts; host_registered = p.host_registered })

set_host : Option Props → Option Props
set_host none = none
set_host (some p) = some (record { registered_items = p.registered_items; host_registered = true })

-- `publishItemsLocked`
publish_items_locked : Server → Server
unfolding set_items item_addresses
publish_items_locked s = record s { props = set_items (item_addresses s.items) s.props }

pub quiet : Server → Result AddressError (Unit {0}) → Outcome
quiet s r = record { server = s; events = []; signals = []; reply = r }

-- `register` behind the resolution of the address; the counter is a uint64.
register_address : Server → Address → Outcome
unfolding quiet publish_items_locked
register_address s a = elim (find a s.items) [
  | some k ↦ quiet s (ok tt)
  | none ↦
      let g = (s.generation + 1) % 2 ^ 64 in
      let key : Key = record { owner = a.owner; object_path = a.object_path; generation = g } in
      record {
        server = publish_items_locked (record s { items = key ∷ s.items; generation = g });
        events = added key ∷ [];
        signals = item_registered (address_text a) ∷ [];
        reply = ok tt;
      }
]

register_result : Server → Result AddressError Address → Outcome
unfolding register_address quiet
register_result s (err e) = quiet s (err e)
register_result s (ok a) = register_address s a

owned_by : Text → List Key → List Key
owned_by owner [] = []
owned_by owner (k ∷ ks) =
    let rest = owned_by owner ks in if text_eq k.owner owner then k ∷ rest else rest

others : Text → List Key → List Key
others owner [] = []
others owner (k ∷ ks) =
    let rest = others owner ks in if text_eq k.owner owner then rest else k ∷ rest

-- `removeOwner`: the keys that it returns and the server behind it.
pub remove_owner : Text → Server → List Key × Server
unfolding owned_by others publish_items_locked
remove_owner owner s =
    let gone = owned_by owner s.items in
    let kept = record s { items = others owner s.items } in
    (gone, elim gone [ [] ↦ kept | k ∷ ks ↦ publish_items_locked kept ])

pub retire : Server → Text → Outcome
unfolding remove_owner
retire s name =
    let (gone, s') = remove_owner name s in
    record {
      server = s';
      events = map removed gone;
      signals = map (λ k. item_unregistered (address_text (address_of k))) gone;
      reply = ok tt;
    }

owner_changed : Server → Text → Text → Outcome
unfolding quiet retire is_unique_name
owner_changed s name new_owner =
    if not (text_eq new_owner [])
    then quiet s (ok tt)
    else if text_eq name bus_name
    then quiet (record s { lost = true }) (ok tt)
    else if is_unique_name name
    then retire s name
    else quiet s (ok tt)

owner_body : Server → List Value → Outcome
unfolding owner_changed as_string quiet
owner_body s (name ∷ old ∷ new ∷ []) = owner_changed s (as_string name) (as_string new)
owner_body s body = quiet s (ok tt)

-- `handleNameOwnerChanged` of a signal that is not nil.
pub handle_name_owner_changed : Server → Signal → Outcome
unfolding owner_body quiet
handle_name_owner_changed s signal =
    if text_eq signal.name name_owner_changed then owner_body s signal.body else quiet s (ok tt)

-- `registerHost`
pub register_host : Server → Text → Outcome
unfolding quiet set_host
register_host s service =
    if text_eq service []
    then quiet s (err empty_argument)
    else (let known = contains text_eq service s.hosts in
        record {
          server = record s {
            hosts = if known then s.hosts else service ∷ s.hosts;
            host_registered = true;
            props = if s.host_registered then s.props else set_host s.props;
          };
          events = [];
          signals = if known then [] else host_registered ∷ [];
          reply = ok tt;
        })

insert_key : Key → List Key → List Key
insert_key k [] = k ∷ []
insert_key k (j ∷ js) =
    let rest = insert_key k js in if leb k.generation j.generation then k ∷ j ∷ js else j ∷ rest

sort_keys : List Key → List Key
unfolding insert_key
sort_keys [] = []
sort_keys (k ∷ ks) = insert_key k (sort_keys ks)

-- `Items`
pub items_in_order : Server → List Key
unfolding sort_keys
items_in_order s = sort_keys s.items

-- A call of the endpoint, or a signal that the pump reads; the bus answers each registration anew.
pub data Call : Type 0 where
  register_item : Text → Text → (Text → Option Text) → Call
  host : Text → Call
  signal : Signal → Call

module _ (path_valid : Text → Bool) where
  pub register : Server → Text → Text → (Text → Option Text) → Outcome
  unfolding register_result
  register s sender argument resolve =
      register_result s (resolve_registration path_valid resolve sender argument)

  pub call : Server → Call → Outcome
  unfolding register handle_name_owner_changed register_host
  call s (register_item sender argument resolve) = register s sender argument resolve
  call s (host service) = register_host s service
  call s (signal v) = handle_name_owner_changed s v

  -- The server after some calls, and all that their goroutines tell the observer, in the order of the
  -- changes, which need not be that in which the observer is told.
  pub run : Server → List Call → Server × List Event
  unfolding call
  run s [] = (s, [])
  run s (c ∷ cs) = let o = call s c in let (s', es) = run o.server cs in (s', o.events ++ es)

-- What one goroutine does: a call up to the release of the lock, or the next call of the observer by the
-- goroutine at a place.
pub data Turn : Type 0 where
  calls : Call → Turn
  tells : ℕ → Turn

module _ (path_valid : Text → Bool) where
  unfoldable pub take_turn : Server × Telling → Turn → Server × Telling
  take_turn (s, t) (calls c) = let o = call path_valid s c in (o.server, promise o.events t)
  take_turn (s, t) (tells n) = (s, tell n t)

  unfoldable pub run_turns : Server × Telling → List Turn → Server × Telling
  unfolding take_turn
  run_turns x [] = x
  run_turns x (t ∷ ts) = run_turns (take_turn x t) ts
