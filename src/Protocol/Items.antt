-- ===== src/Protocol/Items.antt =====
-- protocol/validate.go: `Item.Validate` and `Item.pixmapBytes`.
use sysc_tray.Prelude.{
  ℕ, ◌+◌, ◌%◌, ◌^◌, ◌≤◌, ◌≡◌, refl, ◌≢◌, ◌⊎◌, inl, ◌↔◌, true, false, not, [], ◌∷◌, arith, ltb,
  Result, ok, ◌>>=◌, ◌>>◌, require, Text,
}
use sysc_tray.Protocol.Types.{Item, Icon, max_text_bytes, max_pixmap_bytes_per_item}
use sysc_tray.Protocol.Errors.{
  Error, Check, invalid_category, invalid_status, item_pixmap_budget, path_not_absolute,
}
use sysc_tray.Protocol.Fields.{
  validate_text, validate_key, validate_key_iff, IsText, IsKey, IsText-nil, validate_text-optional,
  validate_text-required, category_valid, status_valid, is_absolute,
}
use sysc_tray.Protocol.Pixmaps.{
  validate_icon, validate_icon_iff, validate_tooltip, validate_tooltip_iff, IsIcon, IsTooltip,
  add_pixmaps, add_pixmaps_lem, set_bytes,
}

-- Go visits the entries of a map in any order: the six orders of the three icons.
pub data IconOrder : Type 0 where
  main_attention_overlay main_overlay_attention attention_main_overlay : IconOrder
  attention_overlay_main overlay_main_attention overlay_attention_main : IconOrder

validate_three : Icon → Icon → Icon → Check
validate_three a b c = validate_icon a >> validate_icon b >> validate_icon c

-- The loop over the map literal of the three icons.
pub validate_icons : IconOrder → Item → Check
unfolding validate_three
validate_icons main_attention_overlay i = validate_three i.icon i.attention_icon i.overlay_icon
validate_icons main_overlay_attention i = validate_three i.icon i.overlay_icon i.attention_icon
validate_icons attention_main_overlay i = validate_three i.attention_icon i.icon i.overlay_icon
validate_icons attention_overlay_main i = validate_three i.attention_icon i.overlay_icon i.icon
validate_icons overlay_main_attention i = validate_three i.overlay_icon i.icon i.attention_icon
validate_icons overlay_attention_main i = validate_three i.overlay_icon i.attention_icon i.icon

pub pixmap_bytes : Item → Result Error ℕ
pixmap_bytes i = do
  a ← add_pixmaps 0 i.icon.pixmaps
  b ← add_pixmaps a i.attention_icon.pixmaps
  c ← add_pixmaps b i.overlay_icon.pixmaps
  add_pixmaps c i.tooltip.pixmaps

validate_menu_path : Text → Check
validate_menu_path [] = ok tt
validate_menu_path (c ∷ s) =
    validate_text (c ∷ s) max_text_bytes false >> require (is_absolute (c ∷ s)) path_not_absolute

validate_budget : Item → Check
validate_budget i = do
  total ← pixmap_bytes i
  require (not (ltb max_pixmap_bytes_per_item total)) item_pixmap_budget

pub validate_item : IconOrder → Item → Check
validate_item order i =
    validate_key i.key
    >> validate_text i.id max_text_bytes false
    >> validate_text i.title max_text_bytes true
    >> require (category_valid i.category) invalid_category
    >> require (status_valid i.status) invalid_status
    >> validate_icons order i
    >> validate_tooltip i.tooltip
    >> validate_menu_path i.menu_path
    >> validate_budget i

-- The bytes of the four sets of an item.
unfoldable pub carried_bytes : Item → ℕ
carried_bytes i =
    set_bytes i.icon.pixmaps
    + set_bytes i.attention_icon.pixmaps
    + set_bytes i.overlay_icon.pixmaps
    + set_bytes i.tooltip.pixmaps

-- What an item must satisfy on the wire.
pub record IsItem (i : Item) : Type 0 where
  pub key : IsKey i.key
  pub id : IsText max_text_bytes i.id
  pub id_set : i.id ≢ []
  pub title : IsText max_text_bytes i.title
  pub category : category_valid i.category ≡ true
  pub status : status_valid i.status ≡ true
  pub icon : IsIcon i.icon
  pub attention_icon : IsIcon i.attention_icon
  pub overlay_icon : IsIcon i.overlay_icon
  pub tooltip : IsTooltip i.tooltip
  pub menu_text : IsText max_text_bytes i.menu_path
  pub menu_absolute : (i.menu_path ≡ []) ⊎ (is_absolute i.menu_path ≡ true)
  pub budget : carried_bytes i % 2 ^ 64 ≤ max_pixmap_bytes_per_item

validate_icons_iff :
    (order : IconOrder) (i : Item)
    → (validate_icons order i ≡ ok tt)
      ↔ (IsIcon i.icon × IsIcon i.attention_icon × IsIcon i.overlay_icon)
unfolding validate_icons
validate_icons_iff main_attention_overlay i = ground (
  arith,
  validate_icon_iff i.icon,
  validate_icon_iff i.attention_icon,
  validate_icon_iff i.overlay_icon,
)
validate_icons_iff _ i = ground (
  arith,
  validate_icon_iff i.icon,
  validate_icon_iff i.attention_icon,
  validate_icon_iff i.overlay_icon,
)

pub pixmap_bytes_lem :
    (i : Item)
    → IsIcon i.icon
    → IsIcon i.attention_icon
    → IsIcon i.overlay_icon
    → IsTooltip i.tooltip
    → pixmap_bytes i ≡ ok (carried_bytes i % 2 ^ 64)
unfolding pixmap_bytes carried_bytes
pixmap_bytes_lem i a b c d = ground (
  arith,
  add_pixmaps_lem 0 i.icon.pixmaps,
  add_pixmaps_lem (set_bytes i.icon.pixmaps % 2 ^ 64) i.attention_icon.pixmaps,
  add_pixmaps_lem
      ((set_bytes i.icon.pixmaps % 2 ^ 64 + set_bytes i.attention_icon.pixmaps) % 2 ^ 64)
      i.overlay_icon.pixmaps,
  add_pixmaps_lem
      (((set_bytes i.icon.pixmaps % 2 ^ 64 + set_bytes i.attention_icon.pixmaps) % 2 ^ 64
          + set_bytes i.overlay_icon.pixmaps)
        % 2 ^ 64)
      i.tooltip.pixmaps,
)

validate_menu_path_iff :
    (t : Text)
    → (validate_menu_path t ≡ ok tt)
      ↔ (IsText max_text_bytes t × ((t ≡ []) ⊎ (is_absolute t ≡ true)))
unfolding validate_menu_path
validate_menu_path_iff [] = (λ h. (IsText-nil max_text_bytes, inl refl), λ h. refl)
validate_menu_path_iff (c ∷ s) = ground (arith, validate_text-required (c ∷ s) max_text_bytes)

-- An item passes, in whatever order the map of its icons is visited, exactly when it satisfies
-- `IsItem`; its total of pixmap bytes is the sum of the four sets as a uint64.
pub validate_item_iff : (order : IconOrder) (i : Item) → (validate_item order i ≡ ok tt) ↔ IsItem i
unfolding validate_item validate_budget
validate_item_iff order i = ground (
  arith,
  validate_key_iff i.key,
  validate_text-required i.id max_text_bytes,
  validate_text-optional i.title max_text_bytes,
  validate_icons_iff order i,
  validate_tooltip_iff i.tooltip,
  validate_menu_path_iff i.menu_path,
  pixmap_bytes_lem i,
)
