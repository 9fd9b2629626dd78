-- ===== src/Tests/Registry.antt =====
-- The registries of items, internal/watcher/, on samples.
use sysc_tray.Prelude.{
  ◌≡◌, refl, true, false, List, [], ◌∷◌, Option, none, some, ok, Text, arith, codes, has_prefix,
}
use sysc_tray.Utf8.{valid_string}
use sysc_tray.Dbusval.{Value, Signal, name_owner_changed}
use sysc_tray.Watcher.Address.{
  default_item_path, Address, IsAddress, NoSlash, is_unique_name, address_text,
  parse_registered_item, parse_registered_item-address_text,
}
use sysc_tray.Watcher.Telling.{nothing_told}
use sysc_tray.Watcher.Server.Told.{IsServed, run_turns-IsServed}
use sysc_tray.Watcher.Server.{
  Server, Props, Call, register_item, host, signal, new_server, run, item_addresses, Turn, calls,
  tells, run_turns,
}
use sysc_tray.Watcher.Server.Published.{Shows, run-Shows}
use sysc_tray.Watcher.Client.{Happening, entry, signal as heard, item_unregistered_name}
use sysc_tray.Tests.{slash_path}

abbrev chat_address : Address
chat_address = record { owner = codes ":1.5"; object_path = codes "/Chat" }

-- Nothing on the bus has another name.
abbrev pub no_names : Text → Option Text
no_names name = none

chat_address-IsAddress : IsAddress slash_path chat_address
unfolding is_unique_name has_prefix valid_string
chat_address-IsAddress = record { unique = refl; path = refl }

default_valid : slash_path default_item_path ≡ true
unfolding has_prefix valid_string
default_valid = refl

chat_slash : has_prefix chat_address.object_path (codes "/") ≡ true
unfolding has_prefix
chat_slash = refl

chat_bare : NoSlash chat_address.owner
chat_bare = ground arith

parse_registered_item-address_text_example :
    parse_registered_item slash_path no_names (address_text chat_address) ≡ ok chat_address
parse_registered_item-address_text_example =
    parse_registered_item-address_text slash_path default_valid no_names chat_address
      chat_address-IsAddress chat_bare chat_slash

abbrev departure : Signal
departure = record {
  name = name_owner_changed;
  path = codes "/";
  body = Value.text (codes ":1.5") ∷ Value.text (codes ":1.5") ∷ Value.text [] ∷ [];
}

-- An item comes, leaves the bus and comes again.
abbrev pub busy_calls : List Call
busy_calls =
    host (codes "shell")
    ∷ register_item (codes ":1.5") (codes "/Chat") no_names
    ∷ signal departure
    ∷ register_item (codes ":1.5") (codes "/Chat") no_names
    ∷ []

-- The observer is told of the second registration before the first item's end.
abbrev busy_turns : List Turn
busy_turns =
    calls (register_item (codes ":1.5") (codes "/Chat") no_names)
    ∷ tells 0
    ∷ calls (signal departure)
    ∷ calls (register_item (codes ":1.5") (codes "/Chat") no_names)
    ∷ tells 0
    ∷ tells 1
    ∷ []

run_turns-IsServed_example :
    let (s, t) = run_turns slash_path (new_server, nothing_told) busy_turns in IsServed s t
run_turns-IsServed_example = run_turns-IsServed slash_path busy_turns (omega arith)

abbrev empty_props : Props
empty_props = record { registered_items = []; host_registered = false }

abbrev served_server : Server
served_server = record new_server { served = true; props = some empty_props }

served_server-Shows : Shows slash_path served_server
unfolding item_addresses
served_server-Shows = record { property = λ p e. ground arith; addresses = tt }

run-Shows_example : Shows slash_path (run slash_path served_server busy_calls).0
run-Shows_example = run-Shows slash_path default_valid served_server busy_calls served_server-Shows

abbrev pub busy_signals : List Happening
busy_signals =
    entry (codes ":1.5/Chat") no_names
    ∷ entry (codes ":1.6/Mail") no_names
    ∷ entry (codes ":1.5/Chat") no_names
    ∷ heard
        (record {
          name = item_unregistered_name;
          path = codes "/StatusNotifierWatcher";
          body = Value.text (codes ":1.6/Mail") ∷ [];
        })
        no_names
    ∷ []
