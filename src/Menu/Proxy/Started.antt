-- ===== src/Menu/Proxy/Started.antt =====
-- internal/menu/proxy.go: Start and Close of the reader of a menu.
use sysc_tray.Prelude.{
  ◌≡◌, ◌⊎◌, inl, inr, refl, ap, arith, Bool, true, false, not, List, [], ◌∷◌, if◌then◌else◌,
  if_elim, Text,
}
use sysc_tray.Protocol.Types.{ItemKey}
use sysc_tray.Matches.{Rule, owner_rule, Subscription, no_subscription, subscribe, unsubscribe}
use sysc_tray.Matches.Balance.{added_times, removed_times, times, granted_first, subscribe-times}
use sysc_tray.Menu.Proxy.{Proxy, trigger, interface}

-- The proxy with what the connection holds of it.
pub record Reader : Type 0 where
  pub proxy : Proxy
  pub subscription : Subscription

-- `NewProxy`
pub new_reader : ItemKey → Text → Reader
new_reader k path = record {
  proxy = record { key = k; path = path; revision = 0; known = false; dirty = false };
  subscription = no_subscription;
}

menu_rule : Proxy → Rule
menu_rule p = record {
  sender = p.key.owner;
  path = p.path;
  interface = interface;
  member = [];
  argument = [];
}

-- `matches`
pub menu_rules : Proxy → List Rule
unfolding menu_rule
menu_rules p = menu_rule p ∷ owner_rule p.key.owner ∷ []

-- `Start`, and whether it succeeded.
pub start : (Text → Bool) → (Rule → Bool) → Reader → Reader × Bool
unfolding trigger menu_rules subscribe
start path_valid grants r =
    if not (path_valid r.proxy.path)
    then (r, false)
    else (let (s, started) = subscribe (menu_rules r.proxy) grants r.subscription in
        (
          record { proxy = if started then trigger r.proxy else r.proxy; subscription = s },
          started,
        ))

-- `Close`
pub close : Reader → Reader
unfolding menu_rules unsubscribe
close r = record r { subscription = unsubscribe (menu_rules r.proxy) r.subscription }

started-close :
    (k : ItemKey) (path : Text) (grants : Rule → Bool)
    → let r = new_reader k path in
      let (s, started) = subscribe (menu_rules r.proxy) grants no_subscription in
      (close (record {
        proxy = if started then trigger r.proxy else r.proxy;
        subscription = s;
      })).subscription
      ≡ unsubscribe (menu_rules r.proxy) s
unfolding close new_reader trigger menu_rules menu_rule
started-close k path grants = ground arith

-- What Start and Close ask for together.
Asks : Bool → Rule → (Rule → Bool) → List Rule → Reader × Bool → Type 0
Asks valid q grants rules (r, started) =
    let asked = (close r).subscription.asked in
    ((valid ≡ false) × (started ≡ false) × (asked ≡ []))
    ⊎ ((valid ≡ true)
        × (started ≡ true)
        × (added_times q asked ≡ removed_times q asked)
        × (added_times q asked ≡ times q rules))
    ⊎ ((valid ≡ true)
        × (started ≡ false)
        × (added_times q asked ≡ times q (granted_first grants rules))
        × (removed_times q asked ≡ times q rules))

unasked : (k : ItemKey) (path : Text) → (close (new_reader k path)).subscription.asked ≡ []
unfolding close new_reader unsubscribe
unasked k path = refl

-- A new reader of a menu, whatever rules the bus grants: with a path that is not valid nothing is asked of
-- the bus. Else, if Start succeeds, it and Close take each rule back as often as it was granted; if it
-- fails, each rule of the reader is taken back once, also one that was not granted.
pub start-close :
    (path_valid : Text → Bool) (grants : Rule → Bool) (k : ItemKey) (path : Text) (q : Rule)
    → let r = new_reader k path in
      let rules = menu_rules r.proxy in
      let (r', started) = start path_valid grants r in
      let asked = (close r').subscription.asked in
      ((path_valid path ≡ false) × (started ≡ false) × (asked ≡ []))
      ⊎ ((path_valid path ≡ true)
          × (started ≡ true)
          × (added_times q asked ≡ removed_times q asked)
          × (added_times q asked ≡ times q rules))
      ⊎ ((path_valid path ≡ true)
          × (started ≡ false)
          × (added_times q asked ≡ times q (granted_first grants rules))
          × (removed_times q asked ≡ times q rules))
unfolding start new_reader Asks
start-close path_valid grants k path q =
    let r = new_reader k path in
    let rules = menu_rules r.proxy in
    let e = ap (λ (t : Subscription). t.asked) (started-close k path grants) in
    if_elim (Asks (path_valid path) q grants rules) (not (path_valid path)) _ _
      (λ bad. inl (ground arith, refl, unasked k path))
      (λ good. elim (subscribe-times q rules grants) [
        | inl (can, even, all) ↦ inr (inl (ground arith, can, rw e even, rw e all))
        | inr (cannot, some_, all) ↦ inr (inr (ground arith, cannot, rw e some_, rw e all))
      ])
