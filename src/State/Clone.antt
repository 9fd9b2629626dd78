-- ===== src/State/Clone.antt =====
-- internal/state/owner.go: the deep copies, and the comparison by `reflect.DeepEqual`.
use sysc_tray.Prelude.{
  ◌≡◌, refl, ap, Bool, true, ◌↔◌, List, [], ◌∷◌, ◌++◌, is_yes, is_yes_iff, ℕ_discrete, Text,
}
use sysc_tray.Protocol.Types.{Pixmap, Icon, Item, MenuNode, MenuNodes, node, nil, cons, Menu}

-- `append([]byte(nil), bytes...)`
copy_bytes : Text → Text
copy_bytes s = [] ++ s

pub clone_pixmaps : List Pixmap → List Pixmap
unfolding copy_bytes
clone_pixmaps [] = []
clone_pixmaps (p ∷ ps) = record p { argb = copy_bytes p.argb } ∷ clone_pixmaps ps

pub clone_icon : Icon → Icon
clone_icon i = record i { pixmaps = clone_pixmaps i.pixmaps }

pub clone_item : Item → Item
clone_item i = record i {
  icon = clone_icon i.icon;
  attention_icon = clone_icon i.attention_icon;
  overlay_icon = clone_icon i.overlay_icon;
  tooltip = record i.tooltip { pixmaps = clone_pixmaps i.tooltip.pixmaps };
}

mutual
  unfolding copy_bytes

  pub clone_node : MenuNode → MenuNode
  clone_node (node f ns) = node (record f { icon_data = copy_bytes f.icon_data }) (clone_nodes ns)

  pub clone_nodes : MenuNodes → MenuNodes
  clone_nodes nil = nil
  clone_nodes (cons n ns) = cons (clone_node n) (clone_nodes ns)

pub clone_menu : Menu → Menu
clone_menu m = record m { root = clone_node m.root }

clone_pixmaps-eq : (ps : List Pixmap) → clone_pixmaps ps ≡ ps
unfolding clone_pixmaps
clone_pixmaps-eq [] = refl
clone_pixmaps-eq (p ∷ ps) = ap (λ (r : List Pixmap). p ∷ r) (clone_pixmaps-eq ps)

-- A copy has the value of its original.
pub clone_item-eq : (i : Item) → clone_item i ≡ i
unfolding clone_item clone_icon
clone_item-eq i = rw (
  clone_pixmaps-eq i.icon.pixmaps,
  clone_pixmaps-eq i.attention_icon.pixmaps,
  clone_pixmaps-eq i.overlay_icon.pixmaps,
  clone_pixmaps-eq i.tooltip.pixmaps,
)

mutual
  unfolding clone_node

  clone_node-eq : (n : MenuNode) → clone_node n ≡ n
  clone_node-eq (node f ns) = ap (node f) (clone_nodes-eq ns)

  clone_nodes-eq : (ns : MenuNodes) → clone_nodes ns ≡ ns
  clone_nodes-eq nil = refl
  clone_nodes-eq (cons n ns) = cc (clone_node-eq n, clone_nodes-eq ns)

pub clone_menu-eq : (m : Menu) → clone_menu m ≡ m
unfolding clone_menu
clone_menu-eq m = rw (clone_node-eq m.root)

Text-discrete : Discrete Text
Text-discrete = hlevel ℕ_discrete

Item-discrete : Discrete Item
unfolding Text-discrete
Item-discrete = hlevel ℕ_discrete

-- `reflect.DeepEqual` on two items.
pub deep_equal : Item → Item → Bool
unfolding Item-discrete
deep_equal a b = is_yes (Item-discrete a b)

pub deep_equal_iff : (a b : Item) → (deep_equal a b ≡ true) ↔ (a ≡ b)
unfolding deep_equal
deep_equal_iff a b = is_yes_iff (Item-discrete a b)
