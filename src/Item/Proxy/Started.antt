-- ===== src/Item/Proxy/Started.antt =====
-- internal/item/proxy.go: Start and Close of the reader of an item.
use sysc_tray.Prelude.{
  ◌≡◌, refl, subst, arith, Bool, true, false, List, [], ◌∷◌, if◌then◌else◌, Text, text_eq,
}
use sysc_tray.Protocol.Types.{ItemKey}
use sysc_tray.Matches.{
  Rule, owner_rule, rule_eq, Subscription, no_subscription, subscribe, unsubscribe,
}
use sysc_tray.Matches.Balance.{added_times, removed_times, times, refused_times}
use sysc_tray.Item.Limiter.{Limiter, forget}
use sysc_tray.Item.Proxy.{Proxy, trigger}

-- The proxy with what the connection and the limiter hold of it.
pub record Reader : Type 0 where
  pub proxy : Proxy
  pub subscription : Subscription
  pub limiter : Limiter

-- `NewProxy`
pub new_reader : ItemKey → Limiter → Reader
new_reader k limiter = record {
  proxy = record { key = k; dirty = false; cancelled = false };
  subscription = no_subscription;
  limiter = limiter;
}

pub item_rule : ItemKey → Rule
item_rule k = record {
  sender = k.owner;
  path = k.object_path;
  interface = [];
  member = [];
  argument = [];
}

-- `matches`
pub item_rules : ItemKey → List Rule
unfolding item_rule
item_rules k = item_rule k ∷ owner_rule k.owner ∷ []

-- `Start`, and whether it succeeded.
pub start : (Rule → Bool) → Reader → Reader × Bool
unfolding trigger item_rules subscribe
start grants r =
    let (s, started) = subscribe (item_rules r.proxy.key) grants r.subscription in
    (record r { subscription = s; proxy = if started then trigger r.proxy else r.proxy }, started)

cancel : Proxy → Proxy
cancel p = record p { cancelled = true }

-- `Close`
pub close : Reader → Reader
unfolding cancel item_rules unsubscribe
close r =
    if r.subscription.closed
    then r
    else if r.subscription.started
    then record {
      proxy = cancel r.proxy;
      subscription = unsubscribe (item_rules r.proxy.key) r.subscription;
      limiter = forget r.proxy.key r.limiter;
    }
    else record r { subscription = unsubscribe (item_rules r.proxy.key) r.subscription }

item_rule-apart :
    (k : ItemKey)
    → text_eq k.object_path [] ≡ false
    → rule_eq (item_rule k) (owner_rule k.owner) ≡ false
unfolding rule_eq item_rule owner_rule
item_rule-apart k h = ground arith

start-unsubscribe :
    (k : ItemKey) (limiter : Limiter) (grants : Rule → Bool)
    → (close (start grants (new_reader k limiter)).0).subscription
      ≡ unsubscribe (item_rules k) (subscribe (item_rules k) grants no_subscription).0
unfolding start close new_reader trigger unsubscribe
start-unsubscribe k limiter grants = ground arith

-- The reader of an item with a path whose own rule the bus refuses: its start, and a close after it, take
-- the rule for the departure of its owner back although they did not add it; and every reader of an
-- item of the same owner has that rule once.
pub refused_start :
    (k j : ItemKey) (limiter : Limiter) (grants : Rule → Bool)
    → text_eq k.object_path [] ≡ false
    → text_eq j.object_path [] ≡ false
    → j.owner ≡ k.owner
    → grants (item_rule k) ≡ false
    → let asked = (close (start grants (new_reader k limiter)).0).subscription.asked in
      (added_times (owner_rule k.owner) asked ≡ 0)
      × (removed_times (owner_rule k.owner) asked ≡ 1)
      × (times (owner_rule k.owner) (item_rules j) ≡ 1)
unfolding item_rules
refused_start k j limiter grants path path' same refused =
    let (never, once, shared) =
      refused_times (item_rule k) k.owner grants (item_rule-apart k path) refused in
    let (none_, each, own) =
      refused_times (item_rule j) j.owner (λ r. false) (item_rule-apart j path') refl in
    (
      rw (start-unsubscribe k limiter grants) never,
      rw (start-unsubscribe k limiter grants) once,
      subst (λ (o : Text). times (owner_rule o) (item_rules j) ≡ 1) same own,
    )
