-- ===== src/Menu/Validate.antt =====
-- internal/menu/validate.go: `Validate`, which walks a tree with an explicit stack.
pub mod Agreement
use sysc_tray.Prelude.{
  ℕ, zero, suc, ◌+◌, Bool, true, false, not, List, [], ◌∷◌, Option, none, some, ltb, Result, ok,
  err, ◌>>=◌, ◌>>◌, require, Text, length, ℤ, pos, is_negative, eq_ℤ, contains,
}
use sysc_tray.Utf8.{valid_string}
use sysc_tray.Protocol.Types.{
  NodeFields, MenuNode, MenuNodes, node, nil, cons, fields, Menu, max_menu_depth, max_menu_nodes,
  max_menu_icon_bytes, max_text_bytes,
}
use sysc_tray.Protocol.Fields.{toggle_valid}
use sysc_tray.MenuTree.{Entry, Walk, start, display_valid}

pub data Error : Type 0 where
  root_identity depth_exceeded node_count negative_identity repeated_identity : Error
  text_not_utf8 text_too_long unknown_toggle unknown_display icon_cap : Error

abbrev pub Check : Type 0
Check = Result Error (Unit {0})

unfoldable pub validate_text : Text → Check
validate_text value =
    require (valid_string value) text_not_utf8
    >> require (not (ltb max_text_bytes (length value))) text_too_long

-- The body of the loop up to the push of the children. `icons` is an int.
visit : Walk → Entry → Result Error Walk
visit w e =
    let f = e.fields in
    let total = w.icons + length f.icon_data in
    require (not (ltb max_menu_depth e.depth)) depth_exceeded
    >> require (not (ltb max_menu_nodes (suc w.nodes))) node_count
    >> require (not (is_negative f.id)) negative_identity
    >> require (not (contains eq_ℤ f.id w.seen)) repeated_identity
    >> validate_text f.label
    >> validate_text f.icon_name
    >> require (toggle_valid f.toggle_type) unknown_toggle
    >> require (display_valid f.children_display) unknown_display
    >> require (not (ltb max_menu_icon_bytes total)) icon_cap
    >> ok (record { seen = f.id ∷ w.seen; nodes = suc w.nodes; icons = total })

pub record Frame : Type 0 where
  pub target : MenuNode
  pub depth : ℕ

-- The pushes of the children, the first one first; the head of the list is the top of the stack.
push : ℕ → MenuNodes → List Frame → List Frame
push depth nil stack = stack
push depth (cons n ns) stack = push depth ns (record { target = n; depth = depth } ∷ stack)

frame_entry : ℕ → MenuNode → Entry
frame_entry depth (node f ns) = record { depth = depth; fields = f }

frame_children : MenuNode → MenuNodes
frame_children (node f ns) = ns

-- `for len(stack) > 0` on fuel; `none` means that the fuel ran out.
unfoldable pub run : ℕ → Walk → List Frame → Option (Result Error Walk)
unfolding visit push frame_entry frame_children
run zero w stack = none
run (suc fuel) w [] = some (ok w)
run (suc fuel) w (current ∷ stack) = elim (visit w (frame_entry current.depth current.target)) [
  | err e ↦ some (err e)
  | ok w' ↦ run fuel w' (push (suc current.depth) (frame_children current.target) stack)
]

-- One round for each node that the limit admits, and one for the node past it or the last test.
abbrev pub rounds : ℕ
rounds = 513

pub finish : Result Error Walk → Check
finish r = r >>= λ w. ok tt

pub validate_with : ℕ → Menu → Option (Check)
unfolding finish
validate_with fuel m = elim (eq_ℤ (fields m.root).id (pos 0)) [
  | false ↦ some (err root_identity)
  | true ↦ elim (run fuel start (record { target = m.root; depth = 0 } ∷ [])) [
    | none ↦ none
    | some r ↦ some (finish r)
  ]
]

-- `Validate`
unfoldable pub validate : Menu → Option (Check)
unfolding validate_with
validate m = validate_with rounds m
