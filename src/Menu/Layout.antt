-- ===== src/Menu/Layout.antt =====
-- internal/menu/model.go: `convertNode` and `convertLayout`. The pointers of the worklist into the
-- tree that grows are paths from its root: the index of a child, then of one of its children. An
-- error is its constructor, without the text.
pub mod Trees
pub mod Growing
pub mod Converted
pub mod Accepted
use sysc_tray.Prelude.{
  ℕ, zero, suc, ◌+◌, ◌-◌, ◌%◌, ◌^◌, Bool, true, false, List, [], ◌∷◌, ◌++◌, Option, none, some, ltb,
  leb, if◌then◌else◌, Result, ok, err, ◌>>=◌, ◌>>◌, require, Text, text_eq, codes, length, ℤ, pos,
  negsuc,
}
use sysc_tray.Utf8.Clamp.{clamp}
use sysc_tray.Dbusval.{
  Value, variant, pointer, table, Fields, fields_of, tuple, elements, int_in, string_of, bool_of,
  int_of, bytes_of,
}
use sysc_tray.Protocol.Types.{
  NodeFields, MenuNode, MenuNodes, node, nil, cons, Menu, ToggleType, max_menu_depth,
  max_menu_nodes, max_menu_icon_bytes, max_text_bytes,
}
use sysc_tray.Menu.Layout.Trees.{append_at, count_at}

pub data LayoutError : Type 0 where
  not_a_node identity_not_integer identity_out_of_range : LayoutError
  depth_exceeded node_count : LayoutError

-- `propertyMap`; the value of a field was unwrapped by `Tuple`.
property_map : Value → List (Text × Value)
unfolding fields_of
property_map (table fs) = fields_of fs
property_map v = []

property : Text → List (Text × Value) → Option Value
property name [] = none
property name ((n, v) ∷ ps) = if text_eq n name then some v else property name ps

-- `int32(state)` of an int64.
to_int32 : ℤ → ℤ
to_int32 (pos n) = let m = n % 2 ^ 32 in if ltb m (2 ^ 31) then pos m else negsuc (2 ^ 32 - 1 - m)
to_int32 (negsuc n) =
    let m = 2 ^ 32 - 1 - n % 2 ^ 32 in if ltb m (2 ^ 31) then pos m else negsuc (2 ^ 32 - 1 - m)

label_of : Option Value → Text
label_of none = []
label_of (some v) = clamp (string_of v) max_text_bytes

shown_of : Option Value → Bool
shown_of none = true
shown_of (some v) = bool_of v true

separator_of : Option Value → Bool
separator_of none = false
separator_of (some v) = text_eq (string_of v) (codes "separator")

icon_bytes_of : Option Text → Text
icon_bytes_of none = []
icon_bytes_of (some b) = if leb (length b) max_menu_icon_bytes then b else []

icon_data_of : Option Value → Text
unfolding icon_bytes_of
icon_data_of none = []
icon_data_of (some v) = icon_bytes_of (bytes_of v)

toggle_of : Option Value → ToggleType
toggle_of none = ToggleType.toggle_none
toggle_of (some v) =
    if text_eq (string_of v) (codes "checkmark")
    then ToggleType.checkmark
    else if text_eq (string_of v) (codes "radio")
    then ToggleType.radio
    else ToggleType.toggle_none

state_of_int : Option ℤ → ℤ
unfolding to_int32
state_of_int none = pos 0
state_of_int (some z) = to_int32 z

toggle_state_of : Option Value → ℤ
unfolding state_of_int
toggle_state_of none = pos 0
toggle_state_of (some v) = state_of_int (int_of v)

display_of : Option Value → Text
display_of none = []
display_of (some v) = if text_eq (string_of v) (codes "submenu") then codes "submenu" else []

-- The fields that the properties give a node with an identity.
unfoldable pub node_fields : ℕ → List (Text × Value) → NodeFields
unfolding property label_of shown_of separator_of icon_data_of toggle_of toggle_state_of display_of
node_fields id ps = record {
  id = pos id;
  label = label_of (property (codes "label") ps);
  enabled = shown_of (property (codes "enabled") ps);
  visible = shown_of (property (codes "visible") ps);
  separator = separator_of (property (codes "type") ps);
  icon_name = label_of (property (codes "icon-name") ps);
  icon_data = icon_data_of (property (codes "icon-data") ps);
  toggle_type = toggle_of (property (codes "toggle-type") ps);
  toggle_state = toggle_state_of (property (codes "toggle-state") ps);
  children_display = display_of (property (codes "children-display") ps);
}

identity : Option ℤ → Result LayoutError ℕ
identity none = err identity_not_integer
identity (some (negsuc n)) = err identity_out_of_range
identity (some (pos n)) = if ltb 2147483647 n then err identity_out_of_range else ok n

read_fields : List Value → Result LayoutError NodeFields
unfolding identity node_fields property_map
read_fields (id ∷ properties ∷ rest) =
    identity (int_in id) >>= λ n. ok (node_fields n (property_map properties))
read_fields vs = err not_a_node

-- `convertNode`, whose node has no children yet.
unfoldable pub convert_node : Value → Result LayoutError NodeFields
unfolding read_fields
convert_node source = elim (tuple source 3) [ none ↦ err not_a_node | some vs ↦ read_fields vs ]

third : List Value → Value
third (a ∷ b ∷ c ∷ rest) = c
third vs = Value.nil

-- The children of a source; one that is no array of nodes has none.
unfoldable pub source_children : Value → List Value
unfolding third
source_children source = elim (tuple source 3) [
  | none ↦ []
  | some vs ↦ elim (elements (third vs)) [ none ↦ [] | some cs ↦ cs ]
]

pub record Frame : Type 0 where
  pub source : Value
  pub target : List ℕ
  pub depth : ℕ

-- The pushes, the last child first: the first child is on the top of the stack.
pub push_children : List Value → List ℕ → ℕ → List Frame → List Frame
push_children [] target depth stack = stack
push_children (c ∷ cs) target depth stack =
    record { source = c; target = target; depth = depth } ∷ push_children cs target depth stack

-- `for len(stack) > 0` on fuel; `none` means that the fuel ran out.
pub run : ℕ → ℕ → MenuNode → List Frame → Option (Result LayoutError MenuNode)
unfolding push_children
run fuel nodes tree [] = some (ok tree)
run zero nodes tree (current ∷ stack) = none
run (suc fuel) nodes tree (current ∷ stack) =
    if ltb max_menu_depth current.depth
    then some (err depth_exceeded)
    else if ltb max_menu_nodes (suc nodes)
    then some (err node_count)
    else elim (convert_node current.source) [
      | err e ↦ some (err e)
      | ok f ↦
          let added = current.target ++ count_at current.target tree ∷ [] in
          run fuel (suc nodes) (append_at current.target (node f nil) tree)
            (push_children (source_children current.source) added (suc current.depth) stack)
    ]

-- A round for each node past the root that the limit admits, and one for the node past it.
abbrev pub rounds : ℕ
rounds = 512

pub finish : ℕ → Result LayoutError MenuNode → Result LayoutError Menu
finish revision r = r >>= λ root. ok (record { revision = revision; root = root })

-- `convertLayout`
unfoldable pub convert_layout : ℕ → Value → Option (Result LayoutError Menu)
unfolding run finish push_children
convert_layout revision layout = elim (convert_node layout) [
  | err e ↦ some (err e)
  | ok f ↦ elim (run rounds 1 (node f nil) (push_children (source_children layout) [] 1 [])) [
    | none ↦ none
    | some r ↦ some (finish revision r)
  ]
]
