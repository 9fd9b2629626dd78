-- ===== src/Protocol/Types.antt =====
-- protocol/types.go: the limits, and the types that travel between the service and the shell.
-- A string-typed enumeration has one constructor for each constant, and `other` for any other text.
use sysc_tray.Prelude.{ℕ, ℤ, Bool, ◌&&◌, List, [], Option, Text, codes, text_eq, ◌==◌}

abbrev pub protocol_major : ℕ
protocol_major = 1

abbrev pub protocol_minor : ℕ
protocol_minor = 0

abbrev pub role_presenter : Text
role_presenter = codes "presenter"

abbrev pub capability_tray : Text
capability_tray = codes "tray-state"

abbrev pub max_items : ℕ
max_items = 128

abbrev pub max_text_bytes : ℕ
max_text_bytes = 4096

abbrev pub max_tooltip_bytes : ℕ
max_tooltip_bytes = 2048

abbrev pub max_pixmap_dimension : ℕ
max_pixmap_dimension = 512

abbrev pub max_pixmap_bytes_per_item : ℕ
max_pixmap_bytes_per_item = 2097152

abbrev pub max_pixmap_bytes_aggregate : ℕ
max_pixmap_bytes_aggregate = 8388608

abbrev pub max_menu_depth : ℕ
max_menu_depth = 8

abbrev pub max_menu_nodes : ℕ
max_menu_nodes = 512

abbrev pub max_menu_icon_bytes : ℕ
max_menu_icon_bytes = 2097152

abbrev pub max_coordinate : ℕ
max_coordinate = 65536

abbrev pub max_presenter_queue_messages : ℕ
max_presenter_queue_messages = 256

abbrev pub max_presenter_decoded_bytes : ℕ
max_presenter_decoded_bytes = 33554432

pub data Kind : Type 0 where
  hello snapshot item_added item_changed item_removed menu_updated command reply : Kind
  other : Text → Kind

pub record Envelope : Type 0 where
  pub kind : Kind
  pub request_id : ℕ
  pub sequence : ℕ
  pub payload : Text

pub record Hello : Type 0 where
  pub major : ℕ
  pub minor : ℕ
  pub role : Text
  pub capabilities : List Text

pub record ItemKey : Type 0 where
  pub owner : Text
  pub object_path : Text
  pub generation : ℕ

unfoldable pub is_zero : ItemKey → Bool
is_zero k = text_eq k.owner [] && (text_eq k.object_path [] && (k.generation == 0))

pub data Category : Type 0 where
  application_status communications system_services hardware : Category
  other : Text → Category

pub data Status : Type 0 where
  passive active needs_attention : Status
  other : Text → Status

pub record Pixmap : Type 0 where
  pub width : ℕ
  pub height : ℕ
  pub argb : Text

pub record Icon : Type 0 where
  pub name : Text
  pub theme_path : Text
  pub pixmaps : List Pixmap

pub record Tooltip : Type 0 where
  pub icon_name : Text
  pub pixmaps : List Pixmap
  pub title : Text
  pub description : Text

pub record Item : Type 0 where
  pub key : ItemKey
  pub id : Text
  pub title : Text
  pub category : Category
  pub status : Status
  pub icon : Icon
  pub attention_icon : Icon
  pub overlay_icon : Icon
  pub tooltip : Tooltip
  pub menu_path : Text
  pub item_is_menu : Bool
  pub close_supported : Bool

pub record Snapshot : Type 0 where
  pub sequence : ℕ
  pub items : List Item

pub record ItemRemoved : Type 0 where
  pub key : ItemKey

pub data ToggleType : Type 0 where
  toggle_none checkmark radio : ToggleType
  other : Text → ToggleType

-- The fields of a menu node but its children.
pub record NodeFields : Type 0 where
  pub id : ℤ
  pub label : Text
  pub enabled : Bool
  pub visible : Bool
  pub separator : Bool
  pub icon_name : Text
  pub icon_data : Text
  pub toggle_type : ToggleType
  pub toggle_state : ℤ
  pub children_display : Text

mutual
  pub data MenuNode : Type 0 where
    node : NodeFields → MenuNodes → MenuNode

  -- A slice of nodes.
  pub data MenuNodes : Type 0 where
    nil : MenuNodes
    cons : MenuNode → MenuNodes → MenuNodes

abbrev pub fields : MenuNode → NodeFields
fields (node f children) = f

abbrev pub children : MenuNode → MenuNodes
children (node f ns) = ns

pub record Menu : Type 0 where
  pub revision : ℕ
  pub root : MenuNode

pub record MenuUpdate : Type 0 where
  pub key : ItemKey
  pub menu : Menu

pub data CommandKind : Type 0 where
  activate secondary_activate scroll menu_open menu_select about_to_show menu_close terminate :
      CommandKind
  other : Text → CommandKind

-- `unset` is the empty text.
pub data ScrollOrientation : Type 0 where
  unset vertical horizontal : ScrollOrientation
  other : Text → ScrollOrientation

pub record Command : Type 0 where
  pub kind : CommandKind
  pub item : ItemKey
  pub menu_revision : ℕ
  pub menu_id : ℤ
  pub output : ℕ
  pub serial : ℕ
  pub x : ℤ
  pub y : ℤ
  pub delta : ℤ
  pub orientation : ScrollOrientation
  pub params : Text

pub data ErrorCode : Type 0 where
  invalid stale_item stale_revision unavailable busy : ErrorCode
  other : Text → ErrorCode

pub record ProtocolError : Type 0 where
  pub code : ErrorCode
  pub message : Text

pub record Reply : Type 0 where
  pub is_success : Bool
  pub item : ItemKey
  pub output : ℕ
  pub error : Option ProtocolError
