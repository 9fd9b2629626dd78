-- ===== src/App/Steps/Serve/Quiet.antt =====
-- The steps of internal/app/run.go that make no call of the state owner.
use sysc_tray.Prelude.{
  ℕ, ◌≡◌, refl, arith, Bool, true, false, not, ◌&&◌, ◌||◌, List, [], ◌∷◌, ◌++◌, Option, none, some,
  Text, text_eq, if_both,
}
use sysc_tray.Protocol.Types.{ItemKey}
use sysc_tray.Protocol.Fields.{key_eq, key_eq_iff}
use sysc_tray.Ownership.{Record}
use sysc_tray.Menu.Proxy.{
  Proxy as MenuProxy, Step as MenuStep, Told, started as menu_started, run as menu_run,
}
use sysc_tray.App.{
  App, Worker, Done, menu_closing, worker_of, without, put, own_found, bind_found, bind_worker,
  menu_closed,
}
use sysc_tray.App.Steps.{live_found, live_menu, relive}
use sysc_tray.App.Steps.Serve.{calls_of, awaited}

unfoldable pub has_worker : Option Worker → Bool
has_worker none = false
has_worker (some w) = true

-- `itemProxy` finds a worker for the key.
unfoldable pub served : ItemKey → App → Bool
unfolding has_worker
served k a = has_worker (worker_of k a.workers)

-- The key has a worker, or a goroutine that is under way will see to it.
unfoldable pub covered : ItemKey → App → Bool
covered k a = served k a || awaited k a.under_way

-- What a step without calls keeps.
pub record Same (a a' : App) : Type 0 where
  pub connected : a'.connected ≡ a.connected
  pub closing : a'.closing ≡ a.closing
  pub tasks : a'.under_way ≡ a.under_way
  pub keeps : (j : ItemKey) → served j a ≡ true → served j a' ≡ true

Same-refl : (a : App) → Same a a
Same-refl a = record { connected = refl; closing = refl; tasks = refl; keeps = λ j h. h }

pub served-without :
    (k j : ItemKey) (ws : List (ItemKey × Worker))
    → key_eq k j ≡ false
    → has_worker (worker_of j (without k ws)) ≡ has_worker (worker_of j ws)
unfolding without worker_of
served-without k j [] e = refl
served-without k j ((i, w) ∷ ws) e =
    ground (arith, served-without k j ws e, key_eq_iff i k, key_eq_iff i j, key_eq_iff k j)

pub put-served :
    (k j : ItemKey) (w : Worker) (a : App)
    → (key_eq k j || served j a) ≡ true
    → served j (put k w a) ≡ true
unfolding served worker_of
put-served k j w a h = ground (arith, served-without k j a.workers)

put-Same : (k : ItemKey) (w : Worker) (a : App) → Same a (put k w a)
put-Same k w a = record {
  connected = refl;
  closing = refl;
  tasks = refl;
  keeps = λ j h. put-served k j w a (ground arith);
}

pub own_found-Same :
    (a : App) (k : ItemKey) (n : ℕ) (r : Option Record) (w : Option Worker)
    → Same a (own_found a k n r w)
unfolding own_found
own_found-Same a k n r none = Same-refl a
own_found-Same a k n r (some w) = if_both (Same a) _ _ _ (put-Same k _ a) (Same-refl a)

menu_closing-none : (m : Option MenuProxy) → calls_of (menu_closing m) ≡ []
unfolding menu_closing calls_of
menu_closing-none none = refl
menu_closing-none (some m) = refl

menu_closing-one :
    (m : Option MenuProxy) (n : MenuProxy) → calls_of (menu_closing m ++ menu_closed n ∷ []) ≡ []
unfolding menu_closing calls_of
menu_closing-one none n = refl
menu_closing-one (some m) n = refl

-- The service is the same to the owner, and there are no calls of it.
pub record Quiet (a : App) (d : Done) : Type 0 where
  pub same : Same a d.0
  pub calls : calls_of d.1 ≡ []

pub none_done : (a : App) → Quiet a (a, [])
unfolding calls_of
none_done a = record { same = Same-refl a; calls = refl }

bind_worker-Quiet :
    (a : App) (k : ItemKey) (t : Text) (b c : Bool) (w : Worker) → Quiet a (bind_worker a k t b c w)
unfolding bind_worker
bind_worker-Quiet a k t b c w =
    let bare = record w { menu = none; menu_path = t } in
    let reader = menu_started k t in
    if_both (Quiet a) (text_eq w.menu_path t) _ _ (none_done a) (
      if_both (Quiet a) (text_eq t [] || not (a.connected && b)) _ _
        (record { same = put-Same k bare a; calls = menu_closing-none w.menu })
        (if_both (Quiet a) c _ _
          (record { same = put-Same k bare a; calls = menu_closing-one w.menu reader })
          (record {
            same = put-Same k (record w { menu = some reader; menu_path = t }) a;
            calls = menu_closing-none w.menu;
          })))

pub bind_found-Quiet :
    (a : App) (k : ItemKey) (t : Text) (b c : Bool) (w : Option Worker)
    → Quiet a (bind_found a k t b c w)
unfolding bind_found
bind_found-Quiet a k t b c none = none_done a
bind_found-Quiet a k t b c (some w) =
    if_both (Quiet a) _ _ _ (none_done a) (bind_worker-Quiet a k t b c w)

relive-Same : (a : App) (k : ItemKey) (w : Worker) (o : Option Told) → Same a (relive a k w o)
unfolding relive
relive-Same a k w none = Same-refl a
relive-Same a k w (some (m, us)) = put-Same k _ a

live_menu-Same :
    (a : App) (k : ItemKey) (ss : List MenuStep) (w : Worker) (m : Option MenuProxy)
    → Same a (live_menu a k ss w m)
unfolding live_menu
live_menu-Same a k ss w none = Same-refl a
live_menu-Same a k ss w (some m) = relive-Same a k w (menu_run m ss)

pub live_found-Same :
    (a : App) (k : ItemKey) (ss : List MenuStep) (w : Option Worker) → Same a (live_found a k ss w)
unfolding live_found
live_found-Same a k ss none = Same-refl a
live_found-Same a k ss (some w) = live_menu-Same a k ss w w.menu
