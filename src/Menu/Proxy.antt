-- ===== src/Menu/Proxy.antt =====
-- internal/menu/proxy.go: the reader of one item's menu. `dirty` is the slot of `wake`. What is
-- published and what is called are lists, in order; the replies of the bus are given.
pub mod Shown
pub mod Current
pub mod Started
use sysc_tray.Prelude.{
  ℕ, Bool, true, false, not, ◌&&◌, List, [], ◌∷◌, ◌++◌, Option, none, some, if◌then◌else◌, Text,
  codes, text_eq, Result, ok, err, ℤ, pos, negsuc, ◌==◌, ltb,
}
use sysc_tray.Dbusval.{
  Value, word, boolean, Signal, as_string, name_owner_changed, BusCall, Reply, canceled, deadline,
  failed, replied,
}
use sysc_tray.Protocol.Types.{
  ItemKey, Menu, ErrorCode, invalid, stale_item, stale_revision, unavailable,
}
use sysc_tray.Protocol.Fields.{key_eq}
use sysc_tray.Menu.Validate.{validate, Check}
use sysc_tray.Menu.Layout.{LayoutError, convert_layout}

-- `Update.Err`, without its text.
pub data Loss : Type 0 where
  owner_left read_failed malformed bad_layout invalid_tree : Loss

pub record Update : Type 0 where
  pub key : ItemKey
  pub menu : Result Loss Menu

pub record Proxy : Type 0 where
  pub key : ItemKey
  pub path : Text
  pub revision : ℕ
  pub known : Bool
  pub dirty : Bool

-- A proxy as `Start` leaves it.
abbrev pub started : ItemKey → Text → Proxy
started k path = record { key = k; path = path; revision = 0; known = false; dirty = true }

abbrev pub Told : Type 0
Told = Proxy × List Update

abbrev pub interface : Text
interface = codes "com.canonical.dbusmenu"

pub trigger : Proxy → Proxy
trigger p = record p { dirty = true }

pub loss : ItemKey → Loss → Update
loss k e = record { key = k; menu = err e }

pub data Announcement : Type 0 where
  owner_changes layout_updated properties_updated unknown : Announcement

announcement : Text → Announcement
announcement name =
    if text_eq name name_owner_changed
    then owner_changes
    else if text_eq name (interface ++ codes ".LayoutUpdated")
    then layout_updated
    else if text_eq name (interface ++ codes ".ItemsPropertiesUpdated")
    then properties_updated
    else unknown

owner_change : Proxy → List Value → Told
unfolding as_string loss
owner_change p (name ∷ old ∷ new ∷ []) =
    if text_eq (as_string name) p.key.owner && text_eq (as_string new) []
    then (p, loss p.key owner_left ∷ [])
    else (p, [])
owner_change p body = (p, [])

-- A revision that is older than the one of the published tree starts no refresh.
layout_update : Proxy → List Value → Proxy
unfolding trigger
layout_update p (word revision ∷ rest) = if p.known && ltb revision p.revision then p else trigger p
layout_update p body = p

pub handle : Proxy → Signal → Told
unfolding announcement owner_change layout_update trigger
handle p s = elim (announcement s.name) [
  | owner_changes ↦ owner_change p s.body
  | layout_updated ↦ (layout_update p s.body, [])
  | properties_updated ↦ (trigger p, [])
  | unknown ↦ (p, [])
]

-- The check of the tree, and the record of its revision. A `none` is a loop that does not end.
store_tree : Proxy → ℕ → Menu → Option Check → Option Told
unfolding loss
store_tree p revision tree none = none
store_tree p revision tree (some (err e)) = some (p, loss p.key invalid_tree ∷ [])
store_tree p revision tree (some (ok t)) =
    some
      (record p { revision = revision; known = true }, record { key = p.key; menu = ok tree } ∷ [])

convert_tree : Proxy → ℕ → Option (Result LayoutError Menu) → Option Told
unfolding store_tree loss
convert_tree p revision none = none
convert_tree p revision (some (err e)) = some (p, loss p.key bad_layout ∷ [])
convert_tree p revision (some (ok tree)) = store_tree p revision tree (validate tree)

-- `getLayout` and what follows it.
layout_reply : Proxy → List Value → Option Told
unfolding convert_tree loss
layout_reply p (word revision ∷ layout ∷ []) =
    convert_tree p revision (convert_layout revision layout)
layout_reply p body = some (p, loss p.key malformed ∷ [])

pub refresh : Proxy → Reply → Option Told
unfolding layout_reply loss
refresh p canceled = some (p, [])
refresh p deadline = some (p, loss p.key read_failed ∷ [])
refresh p failed = some (p, loss p.key read_failed ∷ [])
refresh p (replied body) = layout_reply p body

-- A round of `loop`; with an empty slot it does not start.
pub round : Proxy → Reply → Option Told
unfolding refresh
round p r = if p.dirty then refresh (record p { dirty = false }) r else some (p, [])

pub check : Proxy → ItemKey → ℕ → Result ErrorCode (Unit {0})
check p k revision =
    if key_eq k p.key
    then (if p.revision == revision then ok tt else err stale_revision)
    else err stale_item

menu_call : Proxy → Text → List Value → BusCall
menu_call p member args = record {
  destination = p.key.owner;
  path = p.path;
  method = interface ++ codes "." ++ member;
  arguments = args;
}

pub record Invoked : Type 0 where
  pub proxy : Proxy
  pub calls : List BusCall
  pub answer : Result ErrorCode Bool

event_answer : Reply → Result ErrorCode Bool
event_answer (replied body) = ok false
event_answer r = err unavailable

event_checked : Result ErrorCode (Unit {0}) → Proxy → ℤ → Text → ℕ → Reply → Invoked
unfolding event_answer menu_call
event_checked (err e) p id name timestamp reply = record { proxy = p; calls = []; answer = err e }
event_checked (ok t) p id name timestamp reply = record {
  proxy = p;
  calls =
      menu_call p (codes "Event")
        (Value.int id ∷ Value.text name ∷ Value.variant (Value.text []) ∷ word timestamp ∷ [])
      ∷ [];
  answer = event_answer reply;
}

pub event : Proxy → ItemKey → ℕ → ℤ → Text → ℕ → Reply → Invoked
unfolding event_checked check
event p k revision id name timestamp reply =
    event_checked (check p k revision) p id name timestamp reply

pub select : Proxy → ItemKey → ℕ → ℤ → ℕ → Reply → Invoked
unfolding event
select p k revision id timestamp = event p k revision id (codes "clicked") timestamp

pub opened : Proxy → ItemKey → ℕ → ℤ → Reply → Invoked
unfolding event
opened p k revision id = event p k revision id (codes "opened") 0

pub closed : Proxy → ItemKey → ℕ → ℤ → Reply → Invoked
unfolding event
closed p k revision id = event p k revision id (codes "closed") 0

show_answer : Reply → Result ErrorCode Bool
show_answer (replied (boolean b ∷ [])) = ok b
show_answer (replied body) = err invalid
show_answer r = err unavailable

after_show : Proxy → Result ErrorCode Bool → Proxy
unfolding trigger
after_show p (ok true) = trigger p
after_show p r = p

show_checked : Result ErrorCode (Unit {0}) → Proxy → ℤ → Reply → Invoked
unfolding show_answer after_show menu_call
show_checked (err e) p id reply = record { proxy = p; calls = []; answer = err e }
show_checked (ok t) p id reply = record {
  proxy = after_show p (show_answer reply);
  calls = menu_call p (codes "AboutToShow") (Value.int id ∷ []) ∷ [];
  answer = show_answer reply;
}

pub about_to_show : Proxy → ItemKey → ℕ → ℤ → Reply → Invoked
unfolding show_checked check
about_to_show p k revision id reply = show_checked (check p k revision) p id reply

-- What a proxy lives through: a signal, or a round with the reply to it.
pub data Step : Type 0 where
  signal : Signal → Step
  reply : Reply → Step

take_step : Proxy → Step → Option Told
unfolding handle round
take_step p (signal s) = some (handle p s)
take_step p (reply r) = round p r

then_told : List Update → Option Told → Option Told
then_told us none = none
then_told us (some (p, vs)) = some (p, us ++ vs)

unfoldable pub run : Proxy → List Step → Option Told
unfolding take_step then_told
run p [] = some (p, [])
run p (s ∷ ss) = elim (take_step p s) [ none ↦ none | some (p', us) ↦ then_told us (run p' ss) ]
