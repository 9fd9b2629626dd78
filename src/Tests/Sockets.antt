-- ===== src/Tests/Sockets.antt =====
-- The socket of internal/presenter/server.go, the life of its server, and the strict decoder of
-- protocol/frame.go.
use sysc_tray.Prelude.{
  ℕ, ◌≡◌, ◌≢◌, refl, ◌↔◌, ◌⊎◌, Bool, true, false, List, [], ◌∷◌, ◌++◌, Option, none, some, text_eq,
  contains, ok, Text, codes, is_ok, if◌then◌else◌, All,
}
use sysc_tray.Utf8.{valid_string}
use sysc_tray.Protocol.Types.{Envelope, Hello, Kind}
use sysc_tray.Protocol.Fields.{validate_text}
use sysc_tray.Protocol.Messages.{validate_envelope, validate_hello}
use sysc_tray.Protocol.Items.{IconOrder}
use sysc_tray.Protocol.Snapshots.{validate_snapshot}
use sysc_tray.Protocol.Strict.{Token, Decoder, decode_strict}
use sysc_tray.Protocol.Strict.Trees.{Value, atom, object, field, no_fields, emit, Unique}
use sysc_tray.Protocol.Strict.Accepted.{decode_strict_iff}
use sysc_tray.State.Owner.{Owner, snapshot_locked}
use sysc_tray.Presenter.Handshake.{admit}
use sysc_tray.Presenter.Handshake.Greeting.{strict_decoders, admit-Unique}
use sysc_tray.Presenter.Server.{passes}
use sysc_tray.Presenter.Server.Lifecycle.{
  Life, new_life, has, is_greeting, Step, serves, accepts, accept_fails, close_begins, close_ends,
  enters, leaves, take_step, run,
}
use sysc_tray.Presenter.Server.Lifecycle.Counted.{IsLife, run-start-IsLife}
use sysc_tray.Presenter.Server.Lifecycle.Late.{close_waits}
use sysc_tray.Presenter.Socket.{
  Info, Lookup, found, absent, Files, Paths, runtime_subdir, socket_name, join, listen_runtime,
}
use sysc_tray.Presenter.Socket.Secure.{
  IsPrivate, IsOwnSocket, IsNoLink, Finds, ancestors, listen_runtime-IsOwnSocket,
}
use sysc_tray.Presenter.Socket.Left.{Watches, listen_runtime-listens}
use sysc_tray.Tests.{shell_hello}

-- Every text is one object with one field.
abbrev small_object : Value
small_object = object (field (codes "a") atom no_fields)

abbrev lexer : Text → Decoder
lexer t = Token.open_object ∷ Token.text (codes "a") ∷ Token.scalar ∷ Token.close_object ∷ []

abbrev one_of : Text → Option (ℕ × Decoder)
one_of t = some (1, [])

lexed : lexer (codes "{}") ≡ emit small_object ++ []
unfolding emit
lexed = refl

decode_strict_iff_example :
    (decode_strict lexer one_of (codes "{}") ≢ none)
    × ((decode_strict lexer one_of (codes "{}") ≡ some (ok 1)) ↔ (
        (valid_string (codes "{}") ≡ true)
        × Unique small_object
        × (◌≡◌ {A = Decoder} [] [])
        × (one_of (codes "{}") ≡ some (1, []))))
decode_strict_iff_example = decode_strict_iff lexer one_of (codes "{}") small_object [] 1 lexed

abbrev envelope : Envelope
envelope = record { kind = Kind.hello; request_id = 0; sequence = 0; payload = codes "{}" }

abbrev envelope_of : Text → Option (Envelope × Decoder)
envelope_of t = some (envelope, [])

abbrev hello_of : Text → Option (Hello × Decoder)
hello_of t = some (shell_hello, [])

abbrev all_json : Text → Bool
all_json t = true

greeted :
    admit (strict_decoders lexer envelope_of hello_of all_json) 1000 (some 1000) (some (codes "{}"))
    ≡ some shell_hello
unfolding admit strict_decoders decode_strict validate_envelope validate_hello text_eq validate_text
    valid_string contains
greeted = refl

admit-Unique_example :
    (valid_string (codes "{}") ≡ true)
    × Unique small_object
    × (◌≡◌ {A = Decoder} [] [])
    × ((e : Envelope) × (envelope_of (codes "{}") ≡ some (e, []))
        × (decode_strict lexer hello_of e.payload ≡ some (ok shell_hello)))
admit-Unique_example =
    admit-Unique lexer envelope_of hello_of all_json 1000 (some 1000) (codes "{}") shell_hello
      small_object [] lexed greeted

-- A file system of private directories; the world is whether the socket listens.
abbrev socket_path : Text
socket_path = codes "/run/sysc-tray/presenter.v1.sock"

abbrev directory : Info
directory = record {
  is_link = false;
  is_dir = true;
  is_socket = false;
  permissions = 448;
  uid = 1000;
}

abbrev socket : Info
socket = record { is_link = false; is_dir = false; is_socket = true; permissions = 384; uid = 1000 }

abbrev entry_at : Text → Bool → Lookup
entry_at p w =
    if text_eq p socket_path then (if w then found socket else absent) else found directory

abbrev disk : Files Bool
disk = record {
  lstat = entry_at;
  mkdir = λ p w. (w, true);
  remove = λ p w. (w, true);
  dial = λ p w. false;
  listen = λ p w. (true, true);
  close_listener = λ p w. false;
  chmod = λ p m w. (w, true);
}

abbrev plain_paths : Paths
plain_paths = record { absolute = λ t. some t; clean = λ t. t }

listening : listen_runtime plain_paths disk (codes "/run") 1000 false ≡ (true, ok socket_path)
unfolding listen_runtime text_eq
listening = refl

listen_runtime-IsOwnSocket_example :
    (abs : Text) × (plain_paths.absolute (codes "/run") ≡ some abs)
    × All (λ q. Finds IsNoLink (entry_at q false)) (ancestors plain_paths abs)
    × Finds (IsPrivate 1000) (entry_at abs false)
    × (let dir = join plain_paths abs runtime_subdir in
        Finds (IsPrivate 1000) (entry_at dir false)
        × (socket_path ≡ join plain_paths dir socket_name)
        × ((entry_at socket_path false ≡ absent)
            ⊎ (Finds (IsOwnSocket 1000) (entry_at socket_path false)
                × (◌≡◌ {A = Bool} false false)))
        × Finds (IsOwnSocket 1000) (entry_at socket_path true))
listen_runtime-IsOwnSocket_example =
    listen_runtime-IsOwnSocket plain_paths disk 1000 (codes "/run") false true socket_path listening

disk-Watches : Watches disk (λ w. w)
disk-Watches = record {
  mkdir = λ p w. refl;
  remove = λ p w. refl;
  chmod = λ p m w. refl;
  listen = λ p w e. refl;
  refused = λ p w e. cc;
  close_listener = λ p w. refl;
}

listen_runtime-listens_example :
    let (w', r) = listen_runtime plain_paths disk (codes "/run") 1000 false in w' ≡ is_ok r
listen_runtime-listens_example =
    listen_runtime-listens plain_paths disk (λ w. w) disk-Watches 1000 (codes "/run") false refl

abbrev icon_order : IconOrder
icon_order = IconOrder.main_attention_overlay

abbrev empty_owner : Owner
empty_owner = record { stopped = false; items = []; order = []; sequence = 0; sink = none }

-- Two presenters come, and the server is closed.
abbrev busy_day : List Step
busy_day =
    accepts
    ∷ accepts
    ∷ enters 0
    ∷ enters 1
    ∷ leaves 0
    ∷ close_begins
    ∷ accept_fails
    ∷ leaves 1
    ∷ close_ends
    ∷ []

run-start-IsLife_example : IsLife (
    run icon_order
      (λ t. true)
      (take_step icon_order (λ t. true) (new_life empty_owner) (serves true))
      busy_day)
run-start-IsLife_example = run-start-IsLife icon_order (λ t. true) empty_owner busy_day

-- Close has begun, and connection 3 is in its handshake.
abbrev closing : Life
closing = record (new_life empty_owner) {
  started = true;
  stopping = true;
  socket = true;
  handlers = 3 ∷ [];
  next = 4;
}

abbrev rest : List Step
rest = accept_fails ∷ close_ends ∷ []

empty-passes : passes icon_order (λ t. true) (snapshot_locked empty_owner) ≡ true
unfolding passes validate_snapshot snapshot_locked
empty-passes = refl

closing-IsGreeting : is_greeting 3 closing ≡ true
unfolding is_greeting contains
closing-IsGreeting = refl

not_failed : has 3 closing.server.failed ≡ false
unfolding contains
not_failed = refl

close_waits_example :
    let l' =
      run icon_order (λ t. true) (take_step icon_order (λ t. true) closing (enters 3)) rest in
    (has 3 l'.served ≡ true) × (has 3 l'.server.failed ≡ false) × (l'.closed ≡ false)
close_waits_example =
    close_waits icon_order (λ t. true) 3 closing rest refl refl closing-IsGreeting not_failed refl
      empty-passes (tt, (tt, tt))
