-- ===== src/Matches.antt =====
-- The match rules by which internal/item/proxy.go and internal/menu/proxy.go ask the bus for signals, and
-- their Start and Close as far as both are alike. What the bus is asked is a list, in order; whether it
-- grants a rule is an argument.
pub mod Balance
use sysc_tray.Prelude.{
  ℕ, Bool, true, false, ◌&&◌, List, [], ◌∷◌, ◌++◌, map, Option, none, some, if◌then◌else◌, Text,
  codes, text_eq,
}

-- The options of a rule; one that is left out is empty.
pub record Rule : Type 0 where
  pub sender : Text
  pub path : Text
  pub interface : Text
  pub member : Text
  pub argument : Text

abbrev pub bus_itself : Text
bus_itself = codes "org.freedesktop.DBus"

-- NameOwnerChanged of one name.
unfoldable pub owner_rule : Text → Rule
owner_rule owner = record {
  sender = bus_itself;
  path = [];
  interface = bus_itself;
  member = codes "NameOwnerChanged";
  argument = owner;
}

-- AddMatchSignal with its answer, and RemoveMatchSignal.
pub data Asked : Type 0 where
  adds : Rule → Bool → Asked
  removes : Rule → Asked

-- `signals` is that the channel of signals is registered.
pub record Subscription : Type 0 where
  pub started : Bool
  pub closed : Bool
  pub signals : Bool
  pub asked : List Asked

abbrev pub no_subscription : Subscription
no_subscription = record { started = false; closed = false; signals = false; asked = [] }

-- `removeMatches`
pub remove_matches : List Rule → List Asked
remove_matches rules = map removes rules

-- The loop of `Start` over the rules: a refusal removes them all.
watch : List Rule → List Rule → (Rule → Bool) → List Asked × Bool
unfolding remove_matches
watch rules [] grants = ([], true)
watch rules (r ∷ rest) grants =
    let (asked, all) = watch rules rest grants in
    if grants r then (adds r true ∷ asked, all) else (adds r false ∷ remove_matches rules, false)

-- `Start`, and whether it succeeded.
unfoldable pub subscribe : List Rule → (Rule → Bool) → Subscription → Subscription × Bool
unfolding watch
subscribe rules grants s =
    if s.started
    then (s, false)
    else (let (asked, all) = watch rules rules grants in
        (
          record s {
            started = all;
            signals = if all then true else s.signals;
            asked = s.asked ++ asked;
          },
          all,
        ))

-- `Close`, once.
unfoldable pub unsubscribe : List Rule → Subscription → Subscription
unfolding remove_matches
unsubscribe rules s =
    if s.closed
    then s
    else if s.started
    then record s { closed = true; signals = false; asked = s.asked ++ remove_matches rules }
    else record s { closed = true }

unfoldable pub rule_eq : Rule → Rule → Bool
rule_eq r q =
    text_eq r.sender q.sender
    && (text_eq r.path q.path
        && (text_eq r.interface q.interface
            && (text_eq r.member q.member && text_eq r.argument q.argument)))
