-- ===== src/Tests/Apps.antt =====
-- The readers of items and menus and the service over them, internal/item/, internal/menu/ and
-- internal/app/, on samples.
use sysc_tray.Prelude.{
  ◌*◌, ◌≡◌, ◌≢◌, ◌≤◌, ◌↔◌, ◌⊎◌, refl, true, false, List, [], ◌∷◌, Option, none, some, ok, arith,
  codes, pos, has_prefix, text_eq, contains, take, length, Distinct, All,
}
use sysc_tray.Utf8.{valid_string}
use sysc_tray.Dbusval.{
  tuple, elements, int_in, string_of, fields_of, Value, word, Signal, name_owner_changed, BusCall,
  replied, deadline,
}
use sysc_tray.Protocol.Types.{
  Menu, node, nil, cons, fields, max_text_bytes, max_menu_nodes, max_menu_icon_bytes,
}
use sysc_tray.MenuTree.{entries, entry_ids, icon_bytes}
use sysc_tray.Menu.Layout.{convert_layout, node_fields, convert_node, source_children}
use sysc_tray.Menu.Layout.Trees.{append_at, count_at, snoc, count}
use sysc_tray.Utf8.Clamp.{clamp}
use sysc_tray.Menu.Layout.Growing.{Mirrors}
use sysc_tray.Menu.Layout.Converted.{convert_layout-Mirrors}
use sysc_tray.Menu.Layout.Accepted.{convert_layout-validate}
use sysc_tray.Menu.Validate.{validate, validate_text, run as visit_all_nodes}
use sysc_tray.Menu.Proxy.{
  Proxy as MenuProxy, Update, started, Step as MenuStep, reply, event, run as live_menu,
}
use sysc_tray.Menu.Proxy.Shown.{latest, Records, IsUpdate, started-Records, run_lem}
use sysc_tray.Menu.Proxy.Current.{IsDrawn, event_lem}
use sysc_tray.Protocol.Fields.{IsKey, toggle_valid}
use sysc_tray.Protocol.Items.{IconOrder, validate_item}
use sysc_tray.Item.Model.{Props, normalize}
use sysc_tray.Item.Model.Accepted.{IsPathTest, normalize_iff}
use sysc_tray.Item.Proxy.{started as item_started, refresh}
use sysc_tray.Item.Proxy.Read.{IsReading, refresh_lem}
use sysc_tray.Ownership.{Record, System}
use sysc_tray.Presenter.Dispatch.{dispatch}
use sysc_tray.App.{Worker, App, worker_of}
use sysc_tray.App.Steps.{Step, adds, inspects, menu_lives, closes, resumes, new_app, IsApp, run}
use sysc_tray.App.Steps.Kept.{run-IsApp}
use sysc_tray.App.Terminate.{World, Sleeps, IsVerified, terminate, terminate-ends, terminate_lem}
use sysc_tray.App.Commands.{Handler, app_commands}
use sysc_tray.App.Commands.Routed.{Allowed, dispatch-Allowed}
use sysc_tray.Tests.{scroll_command, mail_key, mail_layout, slash_path}

abbrev read_menu : Menu
read_menu = record {
  revision = 3;
  root =
      node (node_fields 0 [])
        (cons (node (node_fields 1 ((codes "label", Value.text (codes "Open")) ∷ [])) nil) nil);
}

mail_layout-read : convert_layout 3 mail_layout ≡ some (ok read_menu)
unfolding convert_layout convert_node source_children tuple elements int_in string_of clamp
    node_fields append_at count_at snoc count fields_of take
mail_layout-read = refl

convert_layout-Mirrors_example :
    (read_menu.revision ≡ 3)
    × Mirrors 0 mail_layout read_menu.root
    × (length (entries 0 read_menu.root) ≤ max_menu_nodes)
convert_layout-Mirrors_example = convert_layout-Mirrors 3 mail_layout read_menu mail_layout-read

convert_layout-validate_example : (validate read_menu ≡ some (ok tt)) ↔ (
    ((fields read_menu.root).id ≡ pos 0)
    × Distinct (entry_ids (entries 0 read_menu.root))
    × (icon_bytes (entries 0 read_menu.root) ≤ max_menu_icon_bytes))
convert_layout-validate_example = convert_layout-validate 3 mail_layout read_menu mail_layout-read

abbrev menu_replies : List MenuStep
menu_replies = reply (replied (word 3 ∷ mail_layout ∷ [])) ∷ []

abbrev drawn : MenuProxy
drawn = record { key = mail_key; path = codes "/Menu"; revision = 3; known = true; dirty = false }

abbrev drawn_update : Update
drawn_update = record { key = mail_key; menu = ok read_menu }

menu_run :
    live_menu (started mail_key (codes "/Menu")) menu_replies ≡ some (drawn, drawn_update ∷ [])
unfolding live_menu validate visit_all_nodes validate_text contains toggle_valid text_eq
    valid_string convert_layout convert_node source_children tuple elements int_in string_of clamp
    node_fields append_at count_at snoc count fields_of take
menu_run = refl

event_lem_example :
    let o = event drawn mail_key 3 (pos 1) (codes "clicked") 0 deadline in
    ((mail_key ≡ mail_key)
      × IsDrawn (latest none (drawn_update ∷ [])) 3
      × (b : BusCall) × (o.calls ≡ b ∷ [])
      × (b.destination ≡ mail_key.owner))
    ⊎ (¬ ((mail_key ≡ mail_key) × IsDrawn (latest none (drawn_update ∷ [])) 3) × (o.calls ≡ []))
event_lem_example =
    event_lem mail_key mail_key (codes "/Menu") (codes "clicked") menu_replies drawn
      (drawn_update ∷ []) 3 0 (pos 1) deadline menu_run

run_lem_example :
    (p : MenuProxy) × (us : List Update) × (live_menu
        (started mail_key (codes "/Menu"))
        menu_replies
      ≡ some (p, us))
    × (p.key ≡ mail_key)
    × Records p (latest none us)
    × All (IsUpdate mail_key) us
run_lem_example =
    run_lem (started mail_key (codes "/Menu")) none menu_replies
      (started-Records mail_key (codes "/Menu"))

slash_path-IsPathTest : IsPathTest slash_path
unfolding has_prefix
slash_path-IsPathTest p h = ground arith

mail_key-IsKey : IsKey mail_key
unfolding has_prefix valid_string
mail_key-IsKey = record {
  owner_text = record { utf8 = refl; short = omega arith };
  owner_prefix = refl;
  owner_long = omega arith;
  path_text = record { utf8 = refl; short = omega arith };
  path_absolute = refl;
  generation_set = omega arith;
}

abbrev mail_props : Props
mail_props =
    (codes "Title", Value.text (codes "Mail")) ∷ (codes "Menu", Value.path (codes "/Menu")) ∷ []

abbrev an_order : IconOrder
an_order = IconOrder.main_attention_overlay

normalize_iff_example :
    (validate_item an_order (normalize slash_path mail_key mail_props) ≡ ok tt) ↔ (
      (length (normalize slash_path mail_key mail_props).id ≤ max_text_bytes)
      × (length (normalize slash_path mail_key mail_props).menu_path ≤ max_text_bytes))
normalize_iff_example =
    normalize_iff slash_path slash_path-IsPathTest an_order mail_key mail_props mail_key-IsKey

abbrev read_props : List Value → Option Props
read_props body = some mail_props

refresh_lem_example :
    let (p, rs) = refresh slash_path an_order read_props (item_started mail_key) (replied []) in
    All (IsReading an_order mail_key) rs
    × (length rs ≤ 1)
    × (p.key ≡ mail_key)
    × ((p.dirty ≡ true) ↔ ((true ≡ true) ⊎ ((replied [] ≡ deadline) × (false ≡ false))))
refresh_lem_example =
    refresh_lem slash_path an_order read_props (item_started mail_key) (replied [])

abbrev mail_signals : List Signal
mail_signals =
    record { name = codes "org.kde.StatusNotifierItem.NewIcon"; path = codes "/Mail"; body = [] }
    ∷ record {
      name = name_owner_changed;
      path = codes "/";
      body = Value.text (codes ":1.2") ∷ Value.text (codes ":1.2") ∷ Value.text [] ∷ [];
    }
    ∷ []

abbrev process : Record
process = record { uid = 1000; pid = 42; start_time = 7 }

-- Every name on the bus is that process, which does not leave.
abbrev pub desktop : System
desktop = record {
  unix_user = λ owner. some 1000;
  unix_process_id = λ owner. some 42;
  read_stat = λ pid. some (codes "42 (mail) S 7");
  fields = λ t. [];
  parse_uint = λ t. some 7;
  service_uid = 1000;
}

abbrev world : World
world = record { system = λ n. desktop; clock = λ n. n * 100000000; signalled = λ pid. true }

world-Sleeps : Sleeps world
world-Sleeps = record { start = omega arith; poll = λ n. omega arith }

abbrev mail_steps : List Step
mail_steps =
    adds mail_key
    ∷ resumes 0 true
    ∷ resumes 0 true
    ∷ inspects mail_key 0 (some process)
    ∷ menu_lives mail_key menu_replies
    ∷ closes
    ∷ resumes 0 true
    ∷ adds mail_key
    ∷ resumes 0 true
    ∷ []

new_app-IsApp : IsApp new_app
new_app-IsApp = record { workers = tt; keys = tt; closed = λ e due. refl }

run-IsApp_example : IsApp (run desktop new_app mail_steps).0
run-IsApp_example = run-IsApp desktop new_app mail_steps new_app-IsApp

abbrev mail_worker : Worker
mail_worker = record {
  serial = 0;
  key = mail_key;
  item = item_started mail_key;
  menu = some drawn;
  menu_path = codes "/Menu";
  own = some process;
}

abbrev mail_app : App
mail_app = record {
  workers = (mail_key, mail_worker) ∷ [];
  closing = false;
  connected = true;
  next = 1;
  under_way = [];
}

terminate-ends_example : (terminate world mail_app mail_key).answer ≢ none
terminate-ends_example = terminate-ends world world-Sleeps mail_app mail_key

terminate_lem_example :
    ((terminate world mail_app mail_key).signals ≡ [])
    ⊎ ((w : Worker) × (r : Record) × ((terminate world mail_app mail_key).signals ≡ r.pid ∷ [])
        × (mail_app.closing ≡ false)
        × (worker_of mail_key mail_app.workers ≡ some w)
        × IsVerified world w r)
terminate_lem_example = terminate_lem world mail_app mail_key

abbrev mail_handler : Handler
mail_handler = record { app = mail_app; calls = []; asked = [] }

dispatch-Allowed_example :
    Allowed world scroll_command.item mail_handler
      (dispatch
        (λ e c. [])
        (λ t. [])
        (λ t. true)
        (some (app_commands world (λ cs. replied []) (λ e. [])))
        scroll_command
        mail_handler).0
dispatch-Allowed_example =
    dispatch-Allowed world (λ cs. replied []) (λ e. []) (λ e c. []) (λ t. []) (λ t. true)
      scroll_command mail_handler
