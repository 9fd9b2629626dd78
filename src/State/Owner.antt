-- ===== src/State/Owner.antt =====
-- internal/state/owner.go: the fields of the owner and its operations. A command runs alone on the
-- owner's goroutine, so an operation is a function of the state. The pointers to entries are held
-- by the map alone, so an entry is a value. The connected sink is one of the sinks of the world `W`
-- and has a number for its identity; an envelope carries its payload before `json.Marshal`, and
-- `marshals` says of which payloads that call succeeds.
pub mod Steps
pub mod Invariant
pub mod Deltas
pub mod Connected
pub mod Contract
pub mod Baseline
pub mod Refinement
pub mod Stability
pub mod Registered
use sysc_tray.Prelude.{
  ℕ, suc, ◌+◌, ◌%◌, ◌^◌, Bool, true, false, not, ◌&&◌, ◌||◌, List, [], ◌∷◌, ◌++◌, Option, none,
  some, ltb, leb, ◌==◌, if◌then◌else◌, Result, ok, err, is_ok, length, Text, ℤ, pos,
}
use sysc_tray.Protocol.Types.{
  Kind, ItemKey, Item, Icon, Tooltip, Category, Status, Menu, MenuNode, node, nil, NodeFields,
  ToggleType, MenuUpdate, ItemRemoved, Snapshot, max_items,
}
use sysc_tray.Protocol.Fields.{key_eq}
use sysc_tray.Protocol.Items.{IconOrder, validate_item}
use sysc_tray.Protocol.Menus.{validate_menu}
use sysc_tray.State.Maps.{Address, address_of, remove_first, lookup, delete, put}
use sysc_tray.State.Clone.{clone_item, clone_menu, deep_equal}

pub data Payload : Type 0 where
  item : Item → Payload
  removed : ItemRemoved → Payload
  menu : MenuUpdate → Payload

pub record Message : Type 0 where
  pub kind : Kind
  pub sequence : ℕ
  pub payload : Payload

-- What the owner calls and does not implement: `Sink.Send` of the sink with a number, which reports
-- whether it took the message, and the success of `json.Marshal`. `visits` is the order in which
-- `Item.Validate` meets the icons.
pub record Env (W : Type 0) : Type 0 where
  pub send : ℕ → Message → W → W × Bool
  pub marshals : Payload → Bool
  pub visits : IconOrder

pub record Entry : Type 0 where
  pub key : ItemKey
  pub item : Item
  pub menu : Menu
  pub has_item : Bool
  pub has_menu : Bool
  pub published : Bool

pub record Owner : Type 0 where
  pub stopped : Bool
  pub items : List (Address × Entry)
  pub order : List Address
  pub sequence : ℕ
  pub sink : Option ℕ

-- `Start`
unfoldable pub start : Owner
start = record { stopped = false; items = []; order = []; sequence = 0; sink = none }

-- The zero values of an item and a menu.
abbrev no_icon : Icon
no_icon = record { name = []; theme_path = []; pixmaps = [] }

abbrev pub no_item : Item
no_item = record {
  key = record { owner = []; object_path = []; generation = 0 };
  id = [];
  title = [];
  category = Category.other [];
  status = Status.other [];
  icon = no_icon;
  attention_icon = no_icon;
  overlay_icon = no_icon;
  tooltip = record { icon_name = []; pixmaps = []; title = []; description = [] };
  menu_path = [];
  item_is_menu = false;
  close_supported = false;
}

abbrev pub no_menu : Menu
no_menu = record {
  revision = 0;
  root =
      node
        (record {
          id = pos 0;
          label = [];
          enabled = false;
          visible = false;
          separator = false;
          icon_name = [];
          icon_data = [];
          toggle_type = ToggleType.toggle_none;
          toggle_state = pos 0;
          children_display = [];
        })
        nil;
}

-- `&entry{key: key}`
abbrev pub new_entry : ItemKey → Entry
new_entry k = record {
  key = k;
  item = no_item;
  menu = no_menu;
  has_item = false;
  has_menu = false;
  published = false;
}

unfoldable pub current : Owner → ItemKey → Option Entry
current o k = elim (lookup (address_of k) o.items) [
  | none ↦ none
  | some e ↦ if key_eq e.key k then some e else none
]

-- `o.items[spot] = &entry{key: key}; o.order = append(o.order, spot)`
unfoldable pub register : ItemKey → Owner → Owner
register k o = record o {
  items = put (address_of k) (new_entry k) o.items;
  order = o.order ++ address_of k ∷ [];
}

-- `record.field = value` through the pointer that the map holds.
unfoldable pub save : ItemKey → Entry → Owner → Owner
save k e o = record o { items = put (address_of k) e o.items }

module _ {W : Type 0} (env : Env W) where
  -- A sink that refuses the message is dropped.
  unfoldable pub deliver : Message → ℕ → Owner → W → Owner × W
  deliver m id o w =
      if env.marshals m.payload
      then (let (w', taken) = env.send id m w in
          (if taken then o else record o { sink = none }, w'))
      else (record o { sink = none }, w)

  unfoldable pub publish : Kind → Payload → Owner → W → Owner × W
  unfolding deliver
  publish kind payload o w =
      let next = (o.sequence + 1) % 2 ^ 64 in
      let o' = record o { sequence = next } in
      elim o.sink [
        | none ↦ (o', w)
        | some id ↦ deliver (record { kind = kind; sequence = next; payload = payload }) id o' w
      ]

  unfoldable pub retire : Address → Entry → Owner → W → Owner × W
  retire spot e o w =
      let o' = record o { items = delete spot o.items; order = remove_first spot o.order } in
      if e.published
      then publish Kind.item_removed (Payload.removed (record { key = e.key })) o' w
      else (o', w)

  unfoldable pub add : ItemKey → Owner → W → Owner × W
  unfolding retire register
  add k o w = elim (lookup (address_of k) o.items) [
    | some e ↦
        if leb k.generation e.key.generation
        then (o, w)
        else (let (o', w') = retire (address_of k) e o w in (register k o', w'))
    | none ↦ if leb max_items (length o.items) then (o, w) else (register k o, w)
  ]

  -- The end of `Update`, for an item that has passed.
  unfoldable pub offer : ItemKey → Entry → Item → Owner → W → Owner × W
  unfolding save publish
  offer k e next o w =
      if e.published && (e.has_item && deep_equal e.item next)
      then (o, w)
      else publish (if e.published then Kind.item_changed else Kind.item_added) (Payload.item next)
          (save k (record e { item = next; has_item = true; published = true }) o) w

  unfoldable pub update : ItemKey → Item → Owner → W → Owner × W
  unfolding current offer
  update k raw o w = elim (current o k) [
    | none ↦ (o, w)
    | some e ↦
        let i : Item = record raw { key = k } in
        if is_ok (validate_item env.visits i) then offer k e (clone_item i) o w else (o, w)
  ]

  unfoldable pub update_menu : ItemKey → Menu → Owner → W → Owner × W
  unfolding current save publish
  update_menu k tree o w = elim (current o k) [
    | none ↦ (o, w)
    | some e ↦
        if e.published && is_ok (validate_menu tree)
        then publish Kind.menu_updated (Payload.menu (record { key = k; menu = clone_menu tree }))
            (save k (record e { menu = clone_menu tree; has_menu = true }) o) w
        else (o, w)
  ]

  unfoldable pub remove : ItemKey → Owner → W → Owner × W
  unfolding current retire
  remove k o w = elim (current o k) [ none ↦ (o, w) | some e ↦ retire (address_of k) e o w ]

-- `Menu`
pub menu_of : ItemKey → Owner → Option Menu
unfolding current
menu_of k o = elim (current o k) [
  | none ↦ none
  | some e ↦ if e.has_menu then some (clone_menu e.menu) else none
]

-- The loop of `snapshotLocked` over the order.
unfoldable pub published_items : Owner → List Address → List Item
published_items o [] = []
published_items o (a ∷ as') =
    let rest = published_items o as' in
    elim (lookup a o.items) [
      | none ↦ rest
      | some e ↦ if e.published then clone_item e.item ∷ rest else rest
    ]

-- `sort.SliceStable` by generation: an element stays behind those of its own generation.
insert_item : Item → List Item → List Item
insert_item i [] = i ∷ []
insert_item i (j ∷ js) =
    let rest = insert_item i js in
    if leb i.key.generation j.key.generation then i ∷ j ∷ js else j ∷ rest

pub sort_items : List Item → List Item
unfolding insert_item
sort_items [] = []
sort_items (i ∷ is) = insert_item i (sort_items is)

unfoldable pub snapshot_locked : Owner → Snapshot
unfolding published_items sort_items
snapshot_locked o = record { sequence = o.sequence; items = sort_items (published_items o o.order) }

-- `Snapshot`; after the close the zero value.
unfoldable pub snapshot : Owner → Snapshot
unfolding snapshot_locked
snapshot o = if o.stopped then record { sequence = 0; items = [] } else snapshot_locked o

-- `Attach` with a sink that is not nil: `none` after the owner has closed.
unfoldable pub attach : ℕ → Owner → Owner × Option Snapshot
attach id o =
    if o.stopped then (o, none) else (record o { sink = some id }, some (snapshot_locked o))

unfoldable pub detach : ℕ → Owner → Owner
detach id o = elim o.sink [ none ↦ o | some s ↦ if s == id then record o { sink = none } else o ]

pub close : Owner → Owner
close o = record o { stopped = true }

-- `submit`: after the close no command runs.
unfoldable pub submit : {W : Type 0} → (Owner → W → Owner × W) → Owner → W → Owner × W
submit command o w = if o.stopped then (o, w) else command o w
