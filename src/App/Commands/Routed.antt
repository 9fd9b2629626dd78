-- ===== src/App/Commands/Routed.antt =====
-- Where the commands of presenters go, from the connection to the bus.
use sysc_tray.Prelude.{
  ◌≡◌, inl, inr, refl, ap, ◌∙◌, Bool, List, ◌∷◌, ◌++◌, Option, none, some, Text,
}
use sysc_tray.Protocol.Types.{ItemKey, Command, ErrorCode}
use sysc_tray.Protocol.Errors.{Error}
use sysc_tray.Dbusval.{BusCall, Reply, CallsOnly}
use sysc_tray.Item.Proxy.{
  Proxy as ItemProxy, Invoked as ItemInvoked, activate, secondary_activate, scroll,
}
use sysc_tray.Item.Proxy.Read.{activate-CallsOnly, secondary_activate-CallsOnly, scroll-CallsOnly}
use sysc_tray.Menu.Proxy.{
  Proxy as MenuProxy, Invoked as MenuInvoked, select, opened, closed, about_to_show,
}
use sysc_tray.Menu.Proxy.Current.{
  select-CallsOnly, opened-CallsOnly, closed-CallsOnly, about_to_show-CallsOnly,
}
use sysc_tray.Presenter.Dispatch.{dispatch}
use sysc_tray.Presenter.Dispatch.Replies.{dispatch-Methods}
use sysc_tray.Ownership.{Record}
use sysc_tray.App.{Worker, worker_of}
use sysc_tray.App.Terminate.{World, IsVerified, terminate_lem}
use sysc_tray.App.Commands.{
  Handler, item_called, item_found, item_command, menu_called, menu_bound, menu_found, menu_command,
  terminate_command, app_commands,
}

-- What a command for a key may do outside: a call to the owner of the key, which has a worker, or a
-- SIGTERM to the process that is verified for that worker.
pub data Allowed (world : World) (k : ItemKey) (s s' : Handler) : Type 0 where
  quiet : s'.calls ≡ s.calls → s'.asked ≡ s.asked → Allowed world k s s'
  called :
      (b : BusCall)
      → s'.calls ≡ b ∷ s.calls
      → b.destination ≡ k.owner
      → s'.asked ≡ s.asked
      → (w : Worker) → worker_of k s.app.workers ≡ some w
      → Allowed world k s s'
  asked :
      (r : Record)
      → s'.calls ≡ s.calls
      → s'.asked ≡ r.pid ∷ s.asked
      → (w : Worker) → worker_of k s.app.workers ≡ some w
      → IsVerified world w r
      → Allowed world k s s'

module _ (world : World) (reply : List BusCall → Reply) (text_of : ErrorCode → Text) where
  called-Allowed :
      (k : ItemKey) (s s' : Handler) (calls : List BusCall) (w : Worker)
      → worker_of k s.app.workers ≡ some w
      → CallsOnly k.owner calls
      → s'.calls ≡ calls ++ s.calls
      → s'.asked ≡ s.asked
      → Allowed world k s s'
  unfolding CallsOnly
  called-Allowed k s s' calls w there (inl none_made) new same =
      quiet (new ∙ ap (λ cs. cs ++ s.calls) none_made) same
  called-Allowed k s s' calls w there (inr (b, made, sent)) new same =
      called b (new ∙ ap (λ cs. cs ++ s.calls) made) sent same w there

  item_command-Allowed :
      (k : ItemKey) (f : ItemProxy → Reply → ItemInvoked) (s : Handler)
      → ((p : ItemProxy) (r : Reply) → CallsOnly k.owner (f p r).calls)
      → Allowed world k s (item_command world reply text_of k f s).0
  unfolding item_command item_found item_called
  item_command-Allowed k f s only = go (worker_of k s.app.workers) refl
    where
      go :
          (o : Option Worker)
          → worker_of k s.app.workers ≡ o
          → Allowed world k s (item_found world reply text_of f s o).0
      go none e = quiet refl refl
      go (some w) e =
          called-Allowed k s _ (f w.item (reply s.calls)).calls w e (only w.item (reply s.calls))
            refl refl

  menu_command-Allowed :
      (k : ItemKey) (f : MenuProxy → Reply → MenuInvoked) (s : Handler)
      → ((p : MenuProxy) (r : Reply) → CallsOnly k.owner (f p r).calls)
      → Allowed world k s (menu_command world reply text_of k f s).0
  unfolding menu_command menu_found menu_bound menu_called
  menu_command-Allowed k f s only = go (worker_of k s.app.workers) refl
    where
      bound :
          (w : Worker)
          → worker_of k s.app.workers ≡ some w
          → (m : Option MenuProxy) → Allowed world k s (menu_bound world reply text_of k f s w m).0
      bound w e none = quiet refl refl
      bound w e (some m) =
          called-Allowed k s _ (f m (reply s.calls)).calls w e (only m (reply s.calls)) refl refl

      go :
          (o : Option Worker)
          → worker_of k s.app.workers ≡ o
          → Allowed world k s (menu_found world reply text_of k f s o).0
      go none e = quiet refl refl
      go (some w) e = bound w e w.menu

  terminate_command-Allowed :
      (k : ItemKey) (s : Handler) → Allowed world k s (terminate_command world reply text_of k s).0
  unfolding terminate_command
  terminate_command-Allowed k s = elim (terminate_lem world s.app k) [
    | inl none_asked ↦ quiet refl (ap (λ ns. ns ++ s.asked) none_asked)
    | inr (w, r, sent, going, there, verified) ↦
        asked r refl (ap (λ ns. ns ++ s.asked) sent) w there verified
  ]

  -- A command that a presenter sends, whatever it is, makes at most one call of an item or a menu, to
  -- the owner of the key that it names, or asks at most one process to leave, which is verified as the one behind
  -- that key; and it does neither unless the service reads an item of that key.
  pub dispatch-Allowed :
      (command_text : Error → Command → Text) (unknown_command : Text → Text)
      (json_valid : Text → Bool) (c : Command) (s : Handler)
      → Allowed world c.item s
          (dispatch command_text unknown_command json_valid
            (some (app_commands world reply text_of))
            c
            s).0
  unfolding app_commands
  dispatch-Allowed command_text unknown_command json_valid c s =
      dispatch-Methods command_text unknown_command (Allowed world) (λ k s. quiet refl refl)
        json_valid (app_commands world reply text_of) c s
        (record {
          activate = λ k x y s.
              item_command-Allowed k (λ p. activate p k x y) s
                (λ p r. activate-CallsOnly p k x y r);
          secondary_activate = λ k x y s.
              item_command-Allowed k (λ p. secondary_activate p k x y) s
                (λ p r. secondary_activate-CallsOnly p k x y r);
          scroll = λ k d o s.
              item_command-Allowed k (λ p. scroll p k d o) s (λ p r. scroll-CallsOnly p k d o r);
          menu_open = λ k n id s.
              menu_command-Allowed k (λ m. opened m k n id) s (λ m r. opened-CallsOnly m k n id r);
          menu_select = λ k n id t s.
              menu_command-Allowed k (λ m. select m k n id t) s
                (λ m r. select-CallsOnly m k n t id r);
          about_to_show = λ k n id s.
              menu_command-Allowed k (λ m. about_to_show m k n id) s
                (λ m r. about_to_show-CallsOnly m k n id r);
          menu_close = λ k n id s.
              menu_command-Allowed k (λ m. closed m k n id) s (λ m r. closed-CallsOnly m k n id r);
          terminate = terminate_command-Allowed;
        })
