-- ===== src/Tests/Hosts.antt =====
-- The hosts and readers of internal/watcher/, internal/item/ and internal/menu/ from their start to their
-- close, and the service of internal/app/.
use sysc_tray.Prelude.{
  ◌≡◌, ◌≤◌, ◌⊎◌, refl, Bool, true, false, List, [], ◌∷◌, ◌++◌, some, ok, All, text_eq, arith, codes,
  length, ◌<◌, ◌^◌,
}
use sysc_tray.Protocol.Types.{ItemKey}
use sysc_tray.Matches.{Rule, owner_rule}
use sysc_tray.Matches.Balance.{added_times, removed_times, times, granted_first}
use sysc_tray.Item.Limiter.{new_limiter}
use sysc_tray.Item.Proxy.Started as Items
use sysc_tray.Item.Proxy.Started.{refused_start}
use sysc_tray.Menu.Proxy.Started as Menus
use sysc_tray.Menu.Proxy.Started.{start-close}
use sysc_tray.Watcher.Address.{Key}
use sysc_tray.Watcher.Registry.{Event, Observed}
use sysc_tray.Watcher.Telling.{additions, removals}
use sysc_tray.Prelude.Shuffles.{Shuffle, Shuffle-append_comm}
use sysc_tray.Watcher.Attach.{Answers, interleave, new_host, attach, live, close}
use sysc_tray.Watcher.Attach.Balanced.{handled, attach-close}
use sysc_tray.Watcher.Serving.{Answers as ServeAnswers, initial_backoff}
use sysc_tray.Watcher.Loop.{Round, run}
use sysc_tray.Watcher.Loop.Turns.{IsRan, run-IsRan}
use sysc_tray.State.Owner.{start, snapshot}
use sysc_tray.App.Steps.{Step, new_app, adds, removes, reads, resumes}
use sysc_tray.App.Steps.Serve.{serve_all, awaited}
use sysc_tray.App.Steps.Serve.Backed.{HasWorker, serve_all-HasWorker}
use sysc_tray.App.Process.{Answers as ProcessAnswers, new_process, run as run_process}
use sysc_tray.App.Process.Reversed.{IsDown, run-IsDown}
use sysc_tray.Tests.{mail_key, mail_item, slash_path}
use sysc_tray.Tests.Registry.{busy_calls, busy_signals, no_names}
use sysc_tray.Tests.Service.{recorder}
use sysc_tray.Tests.Apps.{desktop}

-- Another item of the owner of `mail_key`.
abbrev chat_key : ItemKey
chat_key = record { owner = codes ":1.2"; object_path = codes "/Chat"; generation = 4 }

abbrev nothing : Rule → Bool
nothing r = false

abbrev everything : Rule → Bool
everything r = true

mail_path : text_eq mail_key.object_path [] ≡ false
unfolding text_eq
mail_path = refl

chat_path : text_eq chat_key.object_path [] ≡ false
unfolding text_eq
chat_path = refl

refused_start_example :
    let asked =
      (Items.close
        (Items.start nothing (Items.new_reader mail_key new_limiter)).0).subscription.asked in
    (added_times (owner_rule (codes ":1.2")) asked ≡ 0)
    × (removed_times (owner_rule (codes ":1.2")) asked ≡ 1)
    × (times (owner_rule (codes ":1.2")) (Items.item_rules chat_key) ≡ 1)
refused_start_example =
    refused_start mail_key chat_key new_limiter nothing mail_path chat_path refl refl

start-close_example :
    let r = Menus.new_reader mail_key (codes "/Menu") in
    let rules = Menus.menu_rules r.proxy in
    let (r', started) = Menus.start slash_path everything r in
    let asked = (Menus.close r').subscription.asked in
    let q = owner_rule (codes ":1.2") in
    ((slash_path (codes "/Menu") ≡ false) × (started ≡ false) × (asked ≡ []))
    ⊎ ((slash_path (codes "/Menu") ≡ true)
        × (started ≡ true)
        × (added_times q asked ≡ removed_times q asked)
        × (added_times q asked ≡ times q rules))
    ⊎ ((slash_path (codes "/Menu") ≡ true)
        × (started ≡ false)
        × (added_times q asked ≡ times q (granted_first everything rules))
        × (removed_times q asked ≡ times q rules))
start-close_example =
    start-close slash_path everything mail_key (codes "/Menu") (owner_rule (codes ":1.2"))

abbrev welcome : Answers
welcome = record {
  owned = true;
  grants_registrations = true;
  grants_owner = true;
  registers = true;
  entries = some (([], codes ":1.5/Chat", no_names) ∷ []);
}

few : length (handled welcome [] busy_signals) < 2 ^ 64
unfolding handled interleave
few = omega arith

-- What the pump handled after the start, and what the start changed.
abbrev hearsay : List Event
hearsay =
    let (h, r, es) = attach slash_path welcome [] new_host in
    let (h', fs) = live slash_path busy_signals h in fs ++ es

hearsay-Shuffle :
    let (h, r, es) = attach slash_path welcome [] new_host in
    let (h', fs) = live slash_path busy_signals h in Shuffle (es ++ fs) hearsay
hearsay-Shuffle =
    let (h, r, es) = attach slash_path welcome [] new_host in
    let (h', fs) = live slash_path busy_signals h in Shuffle-append_comm es fs

attach-close_example :
    let (h, r, es) = attach slash_path welcome [] new_host in
    let (h', fs) = live slash_path busy_signals h in
    let (h'', gs) = close slash_path h' in
    ((q : Rule) → added_times q h''.asked ≡ removed_times q h''.asked)
    × (h''.signals ≡ false)
    × (h''.client.items ≡ [])
    × Observed 0 [] ((es ++ fs) ++ gs) h''.client.generation h''.client.items
    × ((k : Key)
        → (additions k (hearsay ++ gs) ≡ removals k (hearsay ++ gs))
          × (additions k (hearsay ++ gs) ≤ 1))
attach-close_example = attach-close slash_path welcome [] busy_signals hearsay few hearsay-Shuffle

abbrev refused : ServeAnswers
refused = record {
  exports = true;
  exports_properties = true;
  adds_match = true;
  primary_owner = false;
}

-- A turn as a host that loses its watcher, and one as the owner of the name until the context ends.
abbrev as_host : Round
as_host = record {
  cancelled_before = false;
  grants = refused;
  host_name = codes ":1.1";
  calls = [];
  answers = welcome;
  early = [];
  later = busy_signals;
  cancelled = false;
  wakes = true;
}

abbrev as_owner : Round
as_owner = record as_host {
  grants = record refused { primary_owner = true };
  calls = busy_calls;
  cancelled = true;
}

run-IsRan_example : IsRan (run slash_path initial_backoff (as_host ∷ as_owner ∷ []))
run-IsRan_example =
    run-IsRan slash_path initial_backoff (as_host ∷ as_owner ∷ []) (omega arith) (omega arith)
      (few, (few, tt))

abbrev reached : ProcessAnswers
reached = record { connects = true; serves = true; fails_closing = λ p. false }

abbrev first_steps : List Step
first_steps = adds mail_key ∷ []

abbrev later_steps : List Step
later_steps = adds chat_key ∷ removes mail_key ∷ []

run-IsDown_example :
    let (p, es) = run_process desktop reached first_steps later_steps false new_process in
    IsDown reached false p es
run-IsDown_example =
    run-IsDown desktop reached false first_steps later_steps (tt, tt) (tt, (tt, tt))

-- Mail is read, a chat comes whose reader cannot start, and Mail is about to go.
abbrev morning : List Step
morning =
    adds mail_key
    ∷ resumes 0 true
    ∷ resumes 0 true
    ∷ resumes 0 true
    ∷ reads (record { key = mail_key; read = ok mail_item }) true false
    ∷ adds chat_key
    ∷ resumes 0 true
    ∷ resumes 0 true
    ∷ resumes 0 false
    ∷ removes mail_key
    ∷ []

serve_all-HasWorker_example :
    let (a, o, w) = serve_all recorder desktop morning new_app start [] in
    All (λ i. HasWorker a i.key ⊎ (awaited i.key a.under_way ≡ true)) (snapshot o).items
serve_all-HasWorker_example =
    serve_all-HasWorker recorder desktop morning []
      (tt, (tt, (tt, (tt, (tt, (tt, (tt, (tt, (tt, (tt, tt))))))))))
