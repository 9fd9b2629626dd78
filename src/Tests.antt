-- ===== src/Tests.antt =====
-- Sample data of protocol/ and internal/, on which the properties are tried.
pub mod Wire
pub mod Service
pub mod Shell
pub mod Readers
pub mod Registry
pub mod Apps
pub mod Sockets
pub mod Hosts
use sysc_tray.Prelude.{
  ℕ, ℤ, pos, Bool, true, false, List, [], ◌∷◌, Option, none, some, Text, codes, has_prefix, ◌&&◌,
}
use sysc_tray.Utf8.{valid_string}
use sysc_tray.Dbusval.{Value, item, end, field, empty}
use sysc_tray.Protocol.Types.{
  ItemKey, Item, Category, Status, Pixmap, Icon, Tooltip, Snapshot, Hello, CommandKind,
  ScrollOrientation, Command, Reply, ErrorCode, NodeFields, MenuNode, MenuNodes, node, nil, cons,
  Menu, ToggleType, role_presenter, capability_tray,
}

abbrev pub mail_key : ItemKey
mail_key = record { owner = codes ":1.2"; object_path = codes "/Mail"; generation = 1 }

-- The same address, registered again.
abbrev pub next_mail_key : ItemKey
next_mail_key = record { owner = codes ":1.2"; object_path = codes "/Mail"; generation = 2 }

abbrev pub dot : Pixmap
dot = record { width = 1; height = 1; argb = codes "argb" }

abbrev pub dot_icon : Icon
dot_icon = record { name = codes "mail"; theme_path = []; pixmaps = dot ∷ [] }

abbrev pub bare_icon : Icon
bare_icon = record { name = []; theme_path = []; pixmaps = [] }

abbrev pub mail_item : Item
mail_item = record {
  key = mail_key;
  id = codes "mail";
  title = codes "Mail";
  category = Category.communications;
  status = Status.active;
  icon = dot_icon;
  attention_icon = bare_icon;
  overlay_icon = bare_icon;
  tooltip = record { icon_name = []; pixmaps = []; title = codes "Inbox"; description = [] };
  menu_path = codes "/Menu";
  item_is_menu = false;
  close_supported = true;
}

abbrev pub shell_hello : Hello
shell_hello = record {
  major = 1;
  minor = 4;
  role = role_presenter;
  capabilities = capability_tray ∷ [];
}

abbrev pub scroll_command : Command
scroll_command = record {
  kind = CommandKind.scroll;
  item = mail_key;
  menu_revision = 0;
  menu_id = pos 0;
  output = 1;
  serial = 0;
  x = pos 10;
  y = pos 20;
  delta = pos 3;
  orientation = ScrollOrientation.vertical;
  params = [];
}

-- A key without its object path.
abbrev pub broken_key : ItemKey
broken_key = record { owner = codes ":1.2"; object_path = []; generation = 1 }

abbrev pub broken_command : Command
broken_command = record scroll_command { item = broken_key }

abbrev pub entry_fields : ℕ → Text → NodeFields
entry_fields n icon = record {
  id = pos n;
  label = codes "Open";
  enabled = true;
  visible = true;
  separator = false;
  icon_name = [];
  icon_data = icon;
  toggle_type = ToggleType.checkmark;
  toggle_state = pos 1;
  children_display = [];
}

abbrev pub mail_menu : Menu
mail_menu = record {
  revision = 1;
  root =
      node (entry_fields 0 [])
        (cons (node (entry_fields 1 (codes "png")) nil) (cons (node (entry_fields 2 []) nil) nil));
}

-- A layout of the bus: a root and one entry of it.
abbrev pub mail_layout : Value
mail_layout = Value.struct (
    item (Value.int (pos 0)) (
      item (Value.table empty) (
        item
          (Value.list (
            item
              (Value.variant (
                Value.struct (
                  item (Value.int (pos 1)) (
                    item (Value.table (field (codes "label") (Value.text (codes "Open")) empty))
                      (item (Value.list end) end)))))
              end))
          end)))

-- The paths that start with a slash.
abbrev pub slash_path : Text → Bool
slash_path t = has_prefix t (codes "/") && valid_string t
