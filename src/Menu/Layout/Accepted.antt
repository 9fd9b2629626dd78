-- ===== src/Menu/Layout/Accepted.antt =====
-- Why a menu that `convertLayout` of internal/menu/model.go returns is, or is not, a valid one.
use sysc_tray.Prelude.{
  ℕ, ◌≤◌, ◌≡◌, refl, sym, subst, List, [], ◌∷◌, length, arith, Option, none, some, ok, ◌>>=◌, inl,
  inr, Bool-cases, Option-cases, ltb, true, codes, Text, text_eq, ℤ, pos, negsuc, ◌↔◌, Distinct,
  All, All-append,
}
use sysc_tray.Dbusval.{Value, string_of, bytes_of, tuple, int_in}
use sysc_tray.Protocol.Types.{
  NodeFields, MenuNode, MenuNodes, Menu, max_menu_depth, max_text_bytes, max_menu_icon_bytes,
  fields,
}
use sysc_tray.Menu.Validate.{validate}
use sysc_tray.Menu.Validate.Agreement.{validate_iff}
use sysc_tray.Protocol.Fields.{IsText, IsText-nil, toggle_valid}
use sysc_tray.Utf8.Clamp.{clamp_valid}
use sysc_tray.MenuTree.{
  Entry, IsEntry, FitsInt, entry_ids, icon_bytes, display_valid, entries, entries_all,
}
use sysc_tray.Menu.Layout.{
  label_of, toggle_of, display_of, node_fields, icon_data_of, icon_bytes_of, property, read_fields,
  identity, property_map, convert_node, convert_layout,
}
use sysc_tray.Menu.Layout.Converted.{convert_layout-Mirrors}
use sysc_tray.Menu.Layout.Growing.{Mirrors, mirror, MirrorsAll, end, both}

-- What the reader makes of any properties is within the bounds of a node.
read-IsText : (v : Option Value) → IsText max_text_bytes (label_of v)
unfolding label_of
read-IsText none = IsText-nil max_text_bytes
read-IsText (some v) =
    let (utf8, short) = clamp_valid (string_of v) max_text_bytes in
    record { utf8 = utf8; short = short }

toggle_of-valid : (v : Option Value) → toggle_valid (toggle_of v) ≡ true
unfolding toggle_of toggle_valid
toggle_of-valid none = refl
toggle_of-valid (some v) = ground arith

display_of-valid : (v : Option Value) → display_valid (display_of v) ≡ true
unfolding display_of text_eq
display_of-valid none = refl
display_of-valid (some v) = ground arith

node_fields-IsEntry :
    (id : ℕ) (ps : List (Text × Value)) (d : ℕ)
    → d ≤ max_menu_depth
    → IsEntry (record { depth = d; fields = node_fields id ps })
unfolding node_fields
node_fields-IsEntry id ps d le = record {
  depth = le;
  id = refl;
  label = read-IsText (property (codes "label") ps);
  icon_name = read-IsText (property (codes "icon-name") ps);
  toggle = toggle_of-valid (property (codes "toggle-type") ps);
  display = display_of-valid (property (codes "children-display") ps);
}

identity-fields :
    (id : Option ℤ) (ps : List (Text × Value)) (f : NodeFields)
    → (identity id >>= λ n. ok (node_fields n ps)) ≡ ok f
    → (n : ℕ) × (f ≡ node_fields n ps)
unfolding identity
identity-fields none ps f h = ground arith
identity-fields (some (negsuc n)) ps f h = ground arith
identity-fields (some (pos n)) ps f h = elim (Bool-cases (ltb 2147483647 n)) [
  | inl big ↦ ground arith
  | inr fits ↦ (n, ground arith)
]

read_fields-fields :
    (vs : List Value) (f : NodeFields)
    → read_fields vs ≡ ok f
    → (id : ℕ) × (ps : List (Text × Value)) × (f ≡ node_fields id ps)
unfolding read_fields
read_fields-fields [] f h = ground arith
read_fields-fields (v ∷ []) f h = ground arith
read_fields-fields (id ∷ properties ∷ rest) f h =
    let (n, e) = identity-fields (int_in id) (property_map properties) f h in
    (n, property_map properties, e)

icon_data_of-short : (v : Option Value) → length (icon_data_of v) ≤ max_menu_icon_bytes
unfolding icon_data_of icon_bytes_of
icon_data_of-short none = omega arith
icon_data_of-short (some v) = elim (Option-cases (bytes_of v)) [
  | inl missing ↦ ground arith
  | inr (b, found) ↦ ground arith
]

-- A node by itself is never refused.
abbrev IsRead : Entry → Type 0
IsRead e = IsEntry e × (length e.fields.icon_data ≤ max_menu_icon_bytes)

node_fields-IsRead :
    (id : ℕ) (ps : List (Text × Value)) (d : ℕ)
    → d ≤ max_menu_depth
    → IsRead (record { depth = d; fields = node_fields id ps })
unfolding node_fields
node_fields-IsRead id ps d le =
    (node_fields-IsEntry id ps d le, icon_data_of-short (property (codes "icon-data") ps))

convert_node-IsRead :
    (v : Value) (f : NodeFields) (d : ℕ)
    → convert_node v ≡ ok f
    → d ≤ max_menu_depth
    → IsRead (record { depth = d; fields = f })
unfolding convert_node
convert_node-IsRead v f d h le = elim (Option-cases (tuple v 3)) [
  | inl bad ↦ ground arith
  | inr (vs, good) ↦
      let (id, ps, e) = read_fields-fields vs f (ground arith) in
      subst (λ g. IsRead (record { depth = d; fields = g })) (sym e) (node_fields-IsRead id ps d le)
]

mutual
  unfolding entries

  Mirrors-IsRead : {d : ℕ} {v : Value} {t : MenuNode} → Mirrors d v t → All IsRead (entries d t)
  Mirrors-IsRead {d} {v} (mirror {f = f} h le g) =
      (convert_node-IsRead v f d h le, MirrorsAll-IsRead g)

  MirrorsAll-IsRead :
      {d : ℕ} {cs : List Value} {ns : MenuNodes}
      → MirrorsAll d cs ns
      → All IsRead (entries_all d ns)
  MirrorsAll-IsRead end = tt
  MirrorsAll-IsRead {d} (both {n = n} {ns = ns} m g) =
      All-append IsRead (entries d n) (entries_all d ns) (Mirrors-IsRead m) (MirrorsAll-IsRead g)

IsRead-FitsInt : (es : List Entry) → All IsRead es → All IsEntry es × All FitsInt es
IsRead-FitsInt [] h = (tt, tt)
IsRead-FitsInt (e ∷ es) ((ok_entry, short), rest) =
    let (entries_ok, fit) = IsRead-FitsInt es rest in ((ok_entry, entries_ok), (omega arith, fit))

-- A menu that the conversion returns passes the reader's validator exactly when its root is node 0,
-- no identity occurs twice and the icons have at most 2 MiB together: nothing else is refused.
pub convert_layout-validate :
    (revision : ℕ) (layout : Value) (m : Menu)
    → convert_layout revision layout ≡ some (ok m)
    → (validate m ≡ some (ok tt)) ↔ (
        ((fields m.root).id ≡ pos 0)
        × Distinct (entry_ids (entries 0 m.root))
        × (icon_bytes (entries 0 m.root) ≤ max_menu_icon_bytes))
convert_layout-validate revision layout m h =
    let (same, mirrors, nodes) = convert_layout-Mirrors revision layout m h in
    let (valid, fits) = IsRead-FitsInt (entries 0 m.root) (Mirrors-IsRead mirrors) in
    let (to, from) = validate_iff m fits in
    (
      λ passed. let b = to passed in (b.root, b.ids, b.icons),
      λ r. from (record { root = r.0; valid = valid; ids = r.1; nodes = nodes; icons = r.2 }),
    )
