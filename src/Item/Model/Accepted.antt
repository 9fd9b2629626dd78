-- ===== src/Item/Model/Accepted.antt =====
-- What `normalize` of internal/item/model.go makes of any properties, before the protocol's validator.
use sysc_tray.Prelude.{
  ℕ, ◌+◌, ◌%◌, ◌^◌, ◌≤◌, ◌≡◌, refl, ◌≢◌, ◌⊎◌, inl, inr, ◌↔◌, Bool, true, List, [], ◌∷◌, ◌++◌,
  Option, none, some, arith, Text, length, All, ok, Option-cases, has_prefix, codes,
}
use sysc_tray.Utf8.{valid_string}
use sysc_tray.Utf8.Clamp.{clamp, clamp_valid, valid_string-append}
use sysc_tray.Dbusval.{Value, tuple, string_in}
use sysc_tray.Protocol.Types.{
  ItemKey, Tooltip, Pixmap, max_text_bytes, max_tooltip_bytes, max_pixmap_bytes_per_item,
}
use sysc_tray.Protocol.Fields.{IsText, IsText-nil, IsKey, is_absolute, category_valid, status_valid}
use sysc_tray.Protocol.Pixmaps.{IsPixmap, IsIcon, IsTooltip, set_bytes}
use sysc_tray.Protocol.Items.{IconOrder, validate_item, validate_item_iff, carried_bytes}
use sysc_tray.Item.Pixmaps.{decode_value_valid}
use sysc_tray.Item.Model.{
  Props, property, text_value, text_prop, path_value, object_path, category_of, category_prop,
  status_of, status_prop, pixmaps_value, icon, no_tooltip, field_pixmaps, tooltip_of, tooltip,
  id_or_address, normalize,
}

clamp-IsText : (t : Text) (limit : ℕ) → IsText limit (clamp t limit)
clamp-IsText t limit = let c = clamp_valid t limit in record { utf8 = c.0; short = c.1 }

text_value-IsText : (limit : ℕ) (v : Option Value) → IsText limit (text_value limit v)
unfolding text_value
text_value-IsText limit (some (Value.text t)) = clamp-IsText t limit
text_value-IsText limit _ = IsText-nil limit

text_prop-IsText :
    (props : Props) (name : Text) (limit : ℕ) → IsText limit (text_prop props name limit)
unfolding text_prop
text_prop-IsText props name limit = text_value-IsText limit (property name props)

category_of-valid : (t : Text) → category_valid (category_of t) ≡ true
unfolding category_valid category_of
category_of-valid t = ground arith

status_of-valid : (t : Text) → status_valid (status_of t) ≡ true
unfolding status_valid status_of
status_of-valid t = ground arith

category_prop-valid : (props : Props) → category_valid (category_prop props) ≡ true
unfolding category_prop
category_prop-valid props = category_of-valid (text_prop props (codes "Category") max_text_bytes)

status_prop-valid : (props : Props) → status_valid (status_prop props) ≡ true
unfolding status_prop
status_prop-valid props = status_of-valid (text_prop props (codes "Status") max_text_bytes)

-- What is read against a budget: valid pixmaps within it.
abbrev Within : ℕ → List Pixmap → Type 0
Within budget ps = All IsPixmap ps × (set_bytes ps ≤ budget)

pixmaps_value-Within : (v : Option Value) (budget : ℕ) → Within budget (pixmaps_value v budget)
unfolding pixmaps_value
pixmaps_value-Within none budget = (tt, omega arith)
pixmaps_value-Within (some v) budget = decode_value_valid v budget

field_pixmaps-Within : (v : Value) (budget : ℕ) → Within budget (field_pixmaps v budget)
unfolding field_pixmaps
field_pixmaps-Within Value.nil budget = (tt, omega arith)
field_pixmaps-Within v budget = decode_value_valid _ budget

icon_lem :
    (props : Props) (a b c : Text) (budget : ℕ)
    → let r = icon props a b c budget in IsIcon r.0 × (set_bytes r.0.pixmaps + r.1 ≡ budget)
unfolding icon
icon_lem props a b c budget =
    let w = pixmaps_value-Within (property b props) budget in
    (
      record {
        name = text_prop-IsText props a max_text_bytes;
        theme_path = text_prop-IsText props c max_text_bytes;
        pixmaps = w.0;
      },
      omega (arith, w.1),
    )

no_tooltip-IsTooltip : IsTooltip no_tooltip
unfolding no_tooltip
no_tooltip-IsTooltip = record {
  icon_name = IsText-nil max_text_bytes;
  title = IsText-nil max_tooltip_bytes;
  description = IsText-nil max_tooltip_bytes;
  pixmaps = tt;
}

abbrev Shown : ℕ → Tooltip → Type 0
Shown budget t = IsTooltip t × (set_bytes t.pixmaps ≤ budget)

none-Shown : (budget : ℕ) → Shown budget no_tooltip
unfolding no_tooltip
none-Shown budget = (no_tooltip-IsTooltip, omega arith)

tooltip_of_lem :
    (fields : Option (List Value)) (budget : ℕ) → Shown budget (tooltip_of fields budget).0
unfolding tooltip_of
tooltip_of_lem (some (name ∷ icons ∷ title ∷ description ∷ rest)) budget =
    let w = field_pixmaps-Within icons budget in
    (
      record {
        icon_name = clamp-IsText (string_in name) max_text_bytes;
        title = clamp-IsText (string_in title) max_tooltip_bytes;
        description = clamp-IsText (string_in description) max_tooltip_bytes;
        pixmaps = w.0;
      },
      w.1,
    )
tooltip_of_lem none budget = none-Shown budget
tooltip_of_lem (some []) budget = none-Shown budget
tooltip_of_lem (some (a ∷ [])) budget = none-Shown budget
tooltip_of_lem (some (a ∷ b ∷ [])) budget = none-Shown budget
tooltip_of_lem (some (a ∷ b ∷ c ∷ [])) budget = none-Shown budget

tooltip_lem : (props : Props) (budget : ℕ) → Shown budget (tooltip props budget).0
unfolding tooltip
tooltip_lem props budget = elim (Option-cases (property (codes "ToolTip") props)) [
  | inl absent ↦ rw (absent, tooltip) (none-Shown budget)
  | inr (v, known) ↦ rw (known, tooltip) (tooltip_of_lem (tuple v 4) budget)
]

owner_set : (s t : Text) → 2 ≤ length s → s ++ t ≢ []
owner_set [] t h = absurd (omega arith)
owner_set (c ∷ s) t h = λ e. cc

-- An object path is absolute and ASCII, as the D-Bus specification has it.
abbrev pub IsPathTest : (Text → Bool) → Type 0
IsPathTest path_valid =
    (p : Text) → path_valid p ≡ true → (is_absolute p ≡ true) × (valid_string p ≡ true)

budget_lem :
    (a b c d left left' left'' : ℕ)
    → a + left ≡ max_pixmap_bytes_per_item
    → b + left' ≡ left
    → c + left'' ≡ left'
    → d ≤ left''
    → (a + b + c + d) % 2 ^ 64 ≤ max_pixmap_bytes_per_item
budget_lem a b c d left left' left'' h i j k = omega arith

pub normalize-key :
    (path_valid : Text → Bool) (k : ItemKey) (props : Props)
    → (normalize path_valid k props).key ≡ k
unfolding normalize
normalize-key path_valid k props = refl

module _ (path_valid : Text → Bool) (law : IsPathTest path_valid) where
  path_value_lem :
      (v : Option Value)
      → let p = path_value path_valid v in
        (valid_string p ≡ true) × ((p ≡ []) ⊎ (is_absolute p ≡ true))
  unfolding path_value valid_string
  path_value_lem (some (Value.path t)) = ground (arith, law t)
  path_value_lem (some (Value.text t)) = ground (arith, law t)
  path_value_lem _ = (refl, inl refl)

  object_path_lem :
      (props : Props) (name : Text)
      → let p = object_path path_valid props name in
        (valid_string p ≡ true) × ((p ≡ []) ⊎ (is_absolute p ≡ true))
  unfolding object_path
  object_path_lem props name = path_value_lem (property name props)

  id_lem :
      (k : ItemKey) (t : Text)
      → IsKey k
      → IsText max_text_bytes t
      → (valid_string (id_or_address k t) ≡ true) × (id_or_address k t ≢ [])
  unfolding id_or_address has_prefix
  id_lem k (c ∷ t) v h = (h.utf8, λ e. cc)
  id_lem k [] v h = (
    valid_string-append k.owner k.object_path v.owner_text.utf8 v.path_text.utf8,
    λ e. owner_set k.owner k.object_path v.owner_long e,
  )

  -- Where a valid object path is absolute and valid text: whatever properties an application sends
  -- for a valid key, what is read of them passes the protocol's validator exactly when its menu
  -- path and its ID, which may be the owner and the path together, have at most 4096 bytes. No
  -- other property can fail the item.
  pub normalize_iff :
      (order : IconOrder) (k : ItemKey) (props : Props)
      → IsKey k
      → (validate_item order (normalize path_valid k props) ≡ ok tt) ↔ (
          (length (normalize path_valid k props).id ≤ max_text_bytes)
          × (length (normalize path_valid k props).menu_path ≤ max_text_bytes))
  unfolding normalize carried_bytes
  normalize_iff order k props v =
      let a =
        icon_lem props (codes "IconName") (codes "IconPixmap") (codes "IconThemePath")
          max_pixmap_bytes_per_item in
      let b =
        icon_lem props (codes "AttentionIconName") (codes "AttentionIconPixmap")
          (codes "IconThemePath") _ in
      let c =
        icon_lem props (codes "OverlayIconName") (codes "OverlayIconPixmap") (codes "IconThemePath")
          _ in
      let t = tooltip_lem props _ in
      let id =
        id_lem k (text_prop props (codes "Id") max_text_bytes) v
          (text_prop-IsText props (codes "Id") max_text_bytes) in
      let menu = object_path_lem props (codes "Menu") in
      let accepted = validate_item_iff order (normalize path_valid k props) in
      (
        λ h. ((accepted.0 h).id.short, (accepted.0 h).menu_text.short),
        λ h. accepted.1 (record {
          key = v;
          id = record { utf8 = id.0; short = h.0 };
          id_set = id.1;
          title = text_prop-IsText props (codes "Title") max_text_bytes;
          category = category_prop-valid props;
          status = status_prop-valid props;
          icon = a.0;
          attention_icon = b.0;
          overlay_icon = c.0;
          tooltip = t.0;
          menu_text = record { utf8 = menu.0; short = h.1 };
          menu_absolute = menu.1;
          budget = budget_lem _ _ _ _ _ _ _ a.1 b.1 c.1 t.1;
        }),
      )
