-- ===== src/Tests/Wire.antt =====
-- The validators of protocol/validate.go and internal/menu/validate.go on sample messages.
use sysc_tray.Prelude.{◌≡◌, ◌↔◌, Bool, false, some, ok, Text, All, arith}
use sysc_tray.Protocol.Menus.{validate_menu}
use sysc_tray.MenuTree.{FitsInt, entries}
use sysc_tray.Menu.Validate.{validate}
use sysc_tray.Menu.Validate.Agreement.{validate-agrees}
use sysc_tray.Tests.{mail_menu}

-- Nothing but the empty text is taken for JSON.
abbrev no_json : Text → Bool
no_json t = false

mail_menu-FitsInt : All FitsInt (entries 0 mail_menu.root)
unfolding entries
mail_menu-FitsInt = ground arith

validate-agrees_example : (validate mail_menu ≡ some (ok tt)) ↔ (validate_menu mail_menu ≡ ok tt)
validate-agrees_example = validate-agrees mail_menu mail_menu-FitsInt
