-- ===== src/App/Commands.antt =====
-- internal/app/run.go: the service as the handler of the presenters' commands. The handler's state is
-- the service, with the calls of items and menus that were made on the bus, the last one first, and the
-- processes that were asked to leave; the questions that `Terminate` asks the bus itself are in `World`.
-- `reply` answers a call after others, and `text_of` is the text of an error.
pub mod Routed
use sysc_tray.Prelude.{
  ℕ, Bool, true, false, List, [], ◌∷◌, ◌++◌, Option, none, some, Text, Result, ok, err, ℤ,
}
use sysc_tray.Protocol.Types.{ItemKey, ErrorCode, stale_item, unavailable, ScrollOrientation}
use sysc_tray.Dbusval.{BusCall, Reply}
use sysc_tray.Item.Proxy.{
  Proxy as ItemProxy, Invoked as ItemInvoked, activate, secondary_activate, scroll,
}
use sysc_tray.Menu.Proxy.{
  Proxy as MenuProxy, Invoked as MenuInvoked, select, opened, closed, about_to_show,
}
use sysc_tray.Presenter.Dispatch.{CallError, typed, Answer, Commands}
use sysc_tray.App.{Worker, App, worker_of, put}
use sysc_tray.App.Terminate.{World, Terminated, terminate}

pub record Handler : Type 0 where
  pub app : App
  pub calls : List BusCall
  pub asked : List ℕ

module _ (world : World) (reply : List BusCall → Reply) (text_of : ErrorCode → Text) where
  error : ErrorCode → Option CallError
  error e = some (typed (record { code = e; message = text_of e }))

  ended {ℓ} : {A : Type ℓ} → Result ErrorCode A → Option CallError
  unfolding error
  ended (ok a) = none
  ended (err e) = error e

  -- `itemProxy` and the command to it.
  item_called : Handler → ItemInvoked → Answer Handler
  unfolding ended
  item_called s o = (record s { calls = o.calls ++ s.calls }, ended o.answer)

  item_found : (ItemProxy → Reply → ItemInvoked) → Handler → Option Worker → Answer Handler
  unfolding item_called error
  item_found f s none = (s, error stale_item)
  item_found f s (some w) = item_called s (f w.item (reply s.calls))

  item_command : ItemKey → (ItemProxy → Reply → ItemInvoked) → Handler → Answer Handler
  unfolding item_found
  item_command k f s = item_found f s (worker_of k s.app.workers)

  -- `menuProxy` and the command to it.
  menu_called : Handler → ItemKey → Worker → MenuInvoked → Answer Handler
  unfolding ended
  menu_called s k w o = (
    record s { app = put k (record w { menu = some o.proxy }) s.app; calls = o.calls ++ s.calls },
    ended o.answer,
  )

  menu_bound :
      ItemKey
      → (MenuProxy → Reply → MenuInvoked)
      → Handler
      → Worker
      → Option MenuProxy
      → Answer Handler
  unfolding menu_called error
  menu_bound k f s w none = (s, error unavailable)
  menu_bound k f s w (some m) = menu_called s k w (f m (reply s.calls))

  menu_found :
      ItemKey → (MenuProxy → Reply → MenuInvoked) → Handler → Option Worker → Answer Handler
  unfolding menu_bound error
  menu_found k f s none = (s, error stale_item)
  menu_found k f s (some w) = menu_bound k f s w w.menu

  menu_command : ItemKey → (MenuProxy → Reply → MenuInvoked) → Handler → Answer Handler
  unfolding menu_found
  menu_command k f s = menu_found k f s (worker_of k s.app.workers)

  -- A wait that does not end gives no answer; `terminate-ends` says when it ends.
  terminate_answer : Option (Result ErrorCode (Unit {0})) → Option CallError
  unfolding ended error
  terminate_answer none = error unavailable
  terminate_answer (some r) = ended r

  terminate_command : ItemKey → Handler → Answer Handler
  unfolding terminate_answer
  terminate_command k s =
      let t = terminate world s.app k in
      (record s { asked = t.signals ++ s.asked }, terminate_answer t.answer)

  -- The service as `presenter.Commands`.
  pub app_commands : Commands Handler
  unfolding item_command menu_command terminate_command
  app_commands = record {
    activate = λ k x y. item_command k (λ p. activate p k x y);
    secondary_activate = λ k x y. item_command k (λ p. secondary_activate p k x y);
    scroll = λ k delta o. item_command k (λ p. scroll p k delta o);
    menu_open = λ k revision id. menu_command k (λ m. opened m k revision id);
    menu_select = λ k revision id serial. menu_command k (λ m. select m k revision id serial);
    about_to_show = λ k revision id. menu_command k (λ m. about_to_show m k revision id);
    menu_close = λ k revision id. menu_command k (λ m. closed m k revision id);
    terminate = terminate_command;
  }
