-- ===== src/Watcher/Attach.antt =====
-- internal/watcher/attach.go: how a host attaches to the watcher of another process, and what it takes back
-- when it is closed. What the bus is asked for is a list, in order; its answers are given.
pub mod Balanced
use sysc_tray.Prelude.{
  ℕ, ◌≡◌, Bool, true, false, List, [], ◌∷◌, ◌++◌, Option, none, some, if◌then◌else◌, Text, codes,
  Result, ok, err,
}
use sysc_tray.Matches.{Rule, bus_itself, Asked, adds, removes}
use sysc_tray.Watcher.Registry.{Event}
use sysc_tray.Watcher.Server.{bus_name}
use sysc_tray.Watcher.Client.{
  Client, new_client, Told, Happening, entry, run, close as close_client,
}

pub data AttachError : Type 0 where
  no_watcher no_registrations_watch no_owner_watch not_registered not_read : AttachError

-- What the bus grants and answers: whether the name has an owner, the two rules, the call of
-- RegisterStatusNotifierHost, and the items that are read, if they can be.
pub record Answers : Type 0 where
  pub owned : Bool
  pub grants_registrations : Bool
  pub grants_owner : Bool
  pub registers : Bool
  pub entries : Option (List (List Happening × Text × (Text → Option Text)))

-- The client with what the connection holds of it.
pub record Host : Type 0 where
  pub client : Client
  pub signals : Bool
  pub closed : Bool
  pub asked : List Asked

-- `newClient`
abbrev pub new_host : Host
new_host = record { client = new_client; signals = false; closed = false; asked = [] }

-- `watcherSignalMatches`
unfoldable pub registrations_rule : Rule
registrations_rule = record {
  sender = bus_name;
  path = [];
  interface = bus_name;
  member = [];
  argument = [];
}

-- `nameOwnerMatch`
unfoldable pub names_rule : Rule
names_rule = record {
  sender = bus_itself;
  path = [];
  interface = bus_itself;
  member = codes "NameOwnerChanged";
  argument = [];
}

-- The host name: the first name of the connection, or one that is made of the process ID.
pub host_name : List Text → Text → Text
host_name [] pid = codes "org.kde.StatusNotifierHost-" ++ pid
host_name (n ∷ names) pid = n

abbrev pub Attached : Type 0
Attached = Host × Result AttachError (Unit {0}) × List Event

-- `attach` up to the start of the pump.
watch : Answers → Host → Host × Result AttachError (Unit {0})
unfolding registrations_rule names_rule
watch a h =
    if a.owned
    then (if a.grants_registrations
        then (if a.grants_owner
            then (
              record h {
                client = record h.client { attached = true };
                signals = true;
                asked = h.asked ++ adds registrations_rule true ∷ adds names_rule true ∷ [];
              },
              ok tt,
            )
            else (
              record h {
                asked =
                    h.asked
                    ++ adds registrations_rule true
                      ∷ adds names_rule false
                      ∷ removes registrations_rule
                      ∷ [];
              },
              err no_owner_watch,
            ))
        else (
          record h { asked = h.asked ++ adds registrations_rule false ∷ [] },
          err no_registrations_watch,
        ))
    else (h, err no_watcher)

-- The items that are read, each with what the pump handles before it is added.
unfoldable pub interleave : List (List Happening × Text × (Text → Option Text)) → List Happening
interleave [] = []
interleave ((hs, t, resolve) ∷ rest) = hs ++ entry t resolve ∷ interleave rest

module _ (path_valid : Text → Bool) where
  -- What the pump handles; a host that is not attached has none.
  pub live : List Happening → Host → Host × List Event
  live hs h =
      if h.client.attached
      then (let (c, es) = run path_valid h.client hs in (record h { client = c }, es))
      else (h, [])

  read_items : Host → Option (List (List Happening × Text × (Text → Option Text))) → Attached
  unfolding live interleave
  read_items h none = (h, err not_read, [])
  read_items h (some entries) = let (h', es) = live (interleave entries) h in (h', ok tt, es)

  register : Answers → List Happening → Host × Result AttachError (Unit {0}) → Attached
  unfolding read_items live
  register a early (h, err e) = (h, err e, [])
  register a early (h, ok u) =
      let (h', es) = live early h in
      if a.registers
      then (let (h'', r, fs) = read_items h' a.entries in (h'', r, es ++ fs))
      else (h', err not_registered, es)

  -- `attach`: `early` is what the pump handles before the items are read.
  pub attach : Answers → List Happening → Host → Attached
  unfolding register watch
  attach a early h = register a early (watch a h)

  -- `close`, once.
  pub close : Host → Host × List Event
  unfolding registrations_rule names_rule
  close h =
      if h.closed
      then (h, [])
      else if h.client.attached
      then (let (c, es) = close_client path_valid h.client in
          (
            record {
              client = c;
              signals = false;
              closed = true;
              asked = h.asked ++ removes registrations_rule ∷ removes names_rule ∷ [];
            },
            es,
          ))
      else (record h { closed = true }, [])
