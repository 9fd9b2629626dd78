-- ===== src/MenuTree.antt =====
-- Menu trees seen as the list of their nodes with their depths: what a bounded tree is, and a walk
-- that visits such a list one node at a time. Both validators of the source are such walks.
pub mod Folds
use sysc_tray.Prelude.{
  ℕ, zero, suc, ◌+◌, ◌^◌, ◌<◌, ◌≤◌, ◌≡◌, refl, ◌⊎◌, inl, inr, ◌↔◌, Bool, true, false, ◌||◌, List,
  [], ◌∷◌, ◌++◌, map, ℤ, pos, is_negative, Text, codes, text_eq, length, All, sum_by, Fresh,
  Distinct,
}
use sysc_tray.Protocol.Types.{
  NodeFields, MenuNode, MenuNodes, node, nil, cons, fields, Menu, max_menu_depth, max_menu_nodes,
  max_menu_icon_bytes, max_text_bytes,
}
use sysc_tray.Protocol.Fields.{IsText, toggle_valid}

pub record Entry : Type 0 where
  pub depth : ℕ
  pub fields : NodeFields

-- The nodes of a tree, each before its children, the children from the first to the last.
unfoldable mutual
  pub entries : ℕ → MenuNode → List Entry
  entries d (node f ns) = record { depth = d; fields = f } ∷ entries_all (suc d) ns

  pub entries_all : ℕ → MenuNodes → List Entry
  entries_all d nil = []
  entries_all d (cons n ns) = entries d n ++ entries_all d ns

abbrev pub entry_ids : List Entry → List ℤ
entry_ids = map (λ e. e.fields.id)

abbrev pub icon_bytes : List Entry → ℕ
icon_bytes = sum_by (λ e. length e.fields.icon_data)

abbrev pub display_valid : Text → Bool
display_valid t = text_eq t [] || text_eq t (codes "submenu")

-- What one node must satisfy by itself.
pub record IsEntry (e : Entry) : Type 0 where
  pub depth : e.depth ≤ max_menu_depth
  pub id : is_negative e.fields.id ≡ false
  pub label : IsText max_text_bytes e.fields.label
  pub icon_name : IsText max_text_bytes e.fields.icon_name
  pub toggle : toggle_valid e.fields.toggle_type ≡ true
  pub display : display_valid e.fields.children_display ≡ true

-- A bounded menu: the root is node 0, no ID occurs twice, and depth, nodes and icons are limited.
pub record IsMenu (m : Menu) : Type 0 where
  pub root : (fields m.root).id ≡ pos 0
  pub valid : All IsEntry (entries 0 m.root)
  pub ids : Distinct (entry_ids (entries 0 m.root))
  pub nodes : length (entries 0 m.root) ≤ max_menu_nodes
  pub icons : icon_bytes (entries 0 m.root) ≤ max_menu_icon_bytes

-- The length of a Go slice is an int.
abbrev pub FitsInt : Entry → Type 0
FitsInt e = length e.fields.icon_data < 2 ^ 63

-- The variables of a walk: the IDs met, the nodes counted and the icon bytes added up.
pub record Walk : Type 0 where
  pub seen : List ℤ
  pub nodes : ℕ
  pub icons : ℕ

abbrev pub start : Walk
start = record { seen = []; nodes = 0; icons = 0 }

abbrev pub advance : Walk → Entry → Walk
advance w e = record {
  seen = e.fields.id ∷ w.seen;
  nodes = suc w.nodes;
  icons = w.icons + length e.fields.icon_data;
}

-- A walk within its limits.
pub record IsWalk (w : Walk) : Type 0 where
  pub nodes : w.nodes ≤ max_menu_nodes
  pub icons : w.icons ≤ max_menu_icon_bytes

-- The walk may go on over this entry.
pub record Admits (w : Walk) (e : Entry) : Type 0 where
  pub valid : IsEntry e
  pub fresh : Fresh e.fields.id w.seen
  pub room : suc w.nodes ≤ max_menu_nodes
  pub icons : w.icons + length e.fields.icon_data ≤ max_menu_icon_bytes
