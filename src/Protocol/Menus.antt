-- ===== src/Protocol/Menus.antt =====
-- protocol/validate.go: `Menu.Validate` and `MenuNode.validate`, which walks a tree by recursion.
-- The map and the two counters that the calls share are the state `Walk`.
pub mod Accepted
use sysc_tray.Prelude.{
  ℕ, zero, suc, ◌+◌, ◌%◌, ◌^◌, Bool, true, false, not, List, [], ◌∷◌, ltb, Result, ok, err, ◌>>=◌,
  ◌>>◌, require, Text, length, ℤ, pos, is_negative, eq_ℤ, contains,
}
use sysc_tray.Protocol.Types.{
  NodeFields, MenuNode, MenuNodes, node, nil, cons, fields, Menu, max_menu_depth, max_menu_nodes,
  max_menu_icon_bytes, max_text_bytes,
}
use sysc_tray.Protocol.Errors.{
  Error, Check, menu_root_not_zero, menu_depth, menu_node_count, negative_menu_id,
  duplicate_menu_id, invalid_toggle_type, invalid_children_display, menu_icon_budget,
}
use sysc_tray.Protocol.Fields.{validate_text, toggle_valid}
use sysc_tray.MenuTree.{Entry, Walk, start, display_valid}

-- The checks of `MenuNode.validate` on the node itself.
visit : Walk → Entry → Result Error Walk
visit w e =
    let f = e.fields in
    let total = (w.icons + length f.icon_data) % 2 ^ 64 in
    require (not (ltb max_menu_depth e.depth)) menu_depth
    >> require (not (ltb max_menu_nodes (suc w.nodes))) menu_node_count
    >> require (not (is_negative f.id)) negative_menu_id
    >> require (not (contains eq_ℤ f.id w.seen)) duplicate_menu_id
    >> validate_text f.label max_text_bytes true
    >> validate_text f.icon_name max_text_bytes true
    >> require (toggle_valid f.toggle_type) invalid_toggle_type
    >> require (display_valid f.children_display) invalid_children_display
    >> require (not (ltb max_menu_icon_bytes total)) menu_icon_budget
    >> ok (record { seen = f.id ∷ w.seen; nodes = suc w.nodes; icons = total })

mutual
  pub validate_node : ℕ → Walk → MenuNode → Result Error Walk
  validate_node depth w (node f ns) =
      visit w (record { depth = depth; fields = f }) >>= λ w'. validate_nodes (suc depth) w' ns

  -- The loop over `n.Children`.
  pub validate_nodes : ℕ → Walk → MenuNodes → Result Error Walk
  validate_nodes depth w nil = ok w
  validate_nodes depth w (cons n ns) = validate_node depth w n >>= λ w'. validate_nodes depth w' ns

pub validate_menu : Menu → Check
validate_menu m =
    require (eq_ℤ (fields m.root).id (pos 0)) menu_root_not_zero
    >> validate_node 0 start m.root
    >>= λ w. ok tt
