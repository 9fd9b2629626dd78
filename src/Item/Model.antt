-- ===== src/Item/Model.antt =====
-- internal/item/model.go: `normalize` and the readers of single properties. The properties are the
-- map that the bus decoder made, as an association list from names to what is in the variant. The
-- budget that the pixmap sets share is passed from one to the next. `path_valid` is
-- dbus.ObjectPath.IsValid.
pub mod Accepted
use sysc_tray.Prelude.{
  ℕ, ◌-◌, Bool, true, false, List, [], ◌∷◌, ◌++◌, Option, none, some, if◌then◌else◌, Text, text_eq,
  codes,
}
use sysc_tray.Utf8.Clamp.{clamp}
use sysc_tray.Dbusval.{Value, tuple, string_in}
use sysc_tray.Protocol.Types.{
  ItemKey, Item, Icon, Tooltip, Category, Status, Pixmap, max_text_bytes, max_tooltip_bytes,
  max_pixmap_bytes_per_item,
}
use sysc_tray.Protocol.Pixmaps.{set_bytes}
use sysc_tray.Item.Pixmaps.{decode_value}

abbrev pub Props : Type 0
Props = List (Text × Value)

-- `props[name]`
property : Text → Props → Option Value
property name [] = none
property name ((n, v) ∷ props) = if text_eq n name then some v else property name props

text_value : ℕ → Option Value → Text
text_value limit (some (Value.text t)) = clamp t limit
text_value limit v = []

-- `text`
pub text_prop : Props → Text → ℕ → Text
unfolding property text_value
text_prop props name limit = text_value limit (property name props)

boolean_value : Option Value → Bool
boolean_value (some (Value.boolean b)) = b
boolean_value v = false

-- `boolean`
boolean_prop : Props → Text → Bool
unfolding property boolean_value
boolean_prop props name = boolean_value (property name props)

path_value : (Text → Bool) → Option Value → Text
path_value path_valid (some (Value.path t)) = if path_valid t then t else []
path_value path_valid (some (Value.text t)) = if path_valid t then t else []
path_value path_valid v = []

-- `objectPath`
object_path : (Text → Bool) → Props → Text → Text
unfolding property path_value
object_path path_valid props name = path_value path_valid (property name props)

-- The switch of `category`.
category_of : Text → Category
category_of t =
    if text_eq t (codes "ApplicationStatus")
    then Category.application_status
    else if text_eq t (codes "Communications")
    then Category.communications
    else if text_eq t (codes "SystemServices")
    then Category.system_services
    else if text_eq t (codes "Hardware")
    then Category.hardware
    else Category.application_status

category_prop : Props → Category
unfolding category_of text_prop
category_prop props = category_of (text_prop props (codes "Category") max_text_bytes)

-- The switch of `status`.
status_of : Text → Status
status_of t =
    if text_eq t (codes "Passive")
    then Status.passive
    else if text_eq t (codes "Active")
    then Status.active
    else if text_eq t (codes "NeedsAttention")
    then Status.needs_attention
    else Status.active

status_prop : Props → Status
unfolding status_of text_prop
status_prop props = status_of (text_prop props (codes "Status") max_text_bytes)

pixmaps_value : Option Value → ℕ → List Pixmap
pixmaps_value none budget = []
pixmaps_value (some v) budget = decode_value v budget

-- `icon`, with the budget that is left.
icon : Props → Text → Text → Text → ℕ → Icon × ℕ
unfolding text_prop pixmaps_value property
icon props name_key pixmap_key theme_key budget =
    let pixmaps = pixmaps_value (property pixmap_key props) budget in
    (
      record {
        name = text_prop props name_key max_text_bytes;
        theme_path = text_prop props theme_key max_text_bytes;
        pixmaps = pixmaps;
      },
      budget - set_bytes pixmaps,
    )

no_tooltip : Tooltip
no_tooltip = record { icon_name = []; pixmaps = []; title = []; description = [] }

-- A field that could not be read has no pixmaps.
field_pixmaps : Value → ℕ → List Pixmap
field_pixmaps Value.nil budget = []
field_pixmaps v budget = decode_value v budget

tooltip_of : Option (List Value) → ℕ → Tooltip × ℕ
unfolding no_tooltip field_pixmaps
tooltip_of (some (name ∷ icons ∷ title ∷ description ∷ rest)) budget =
    let pixmaps = field_pixmaps icons budget in
    (
      record {
        icon_name = clamp (string_in name) max_text_bytes;
        pixmaps = pixmaps;
        title = clamp (string_in title) max_tooltip_bytes;
        description = clamp (string_in description) max_tooltip_bytes;
      },
      budget - set_bytes pixmaps,
    )
tooltip_of fields budget = (no_tooltip, budget)

-- `tooltip`
tooltip : Props → ℕ → Tooltip × ℕ
unfolding tooltip_of property no_tooltip
tooltip props budget = elim (property (codes "ToolTip") props) [
  | none ↦ (no_tooltip, budget)
  | some v ↦ tooltip_of (tuple v 4) budget
]

-- `if item.ID == "" { item.ID = key.Owner + key.ObjectPath }`
id_or_address : ItemKey → Text → Text
id_or_address k [] = k.owner ++ k.object_path
id_or_address k (c ∷ t) = c ∷ t

pub normalize : (Text → Bool) → ItemKey → Props → Item
unfolding text_prop boolean_prop object_path category_prop status_prop icon tooltip id_or_address
normalize path_valid key props =
    let (main, left) =
      icon props (codes "IconName") (codes "IconPixmap") (codes "IconThemePath")
        max_pixmap_bytes_per_item in
    let (attention, left') =
      icon props (codes "AttentionIconName") (codes "AttentionIconPixmap") (codes "IconThemePath")
        left in
    let (overlay, left'') =
      icon props (codes "OverlayIconName") (codes "OverlayIconPixmap") (codes "IconThemePath")
        left' in
    record {
      key = key;
      id = id_or_address key (text_prop props (codes "Id") max_text_bytes);
      title = text_prop props (codes "Title") max_text_bytes;
      category = category_prop props;
      status = status_prop props;
      icon = main;
      attention_icon = attention;
      overlay_icon = overlay;
      tooltip = (tooltip props left'').0;
      menu_path = object_path path_valid props (codes "Menu");
      item_is_menu = boolean_prop props (codes "ItemIsMenu");
      close_supported = false;
    }
