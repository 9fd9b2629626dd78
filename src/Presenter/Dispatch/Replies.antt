-- ===== src/Presenter/Dispatch/Replies.antt =====
-- What `dispatch` of internal/presenter/connection.go answers.
use sysc_tray.Prelude.{
  ℕ, ℤ, ◌≡◌, refl, ◌≢◌, ◌↔◌, ◌⊎◌, inl, inr, Bool, false, Option, none, some, arith, ok, err, Text,
}
use sysc_tray.Protocol.Types.{CommandKind, Command, ErrorCode, ItemKey, ScrollOrientation}
use sysc_tray.Protocol.Errors.{Error, Check}
use sysc_tray.Protocol.Messages.{validate_command, validate_reply}
use sysc_tray.Protocol.Messages.Accepted.{
  validate_reply_iff, IsReplyKey, IsOutcome, validate_command_iff, IsCommand,
}
use sysc_tray.Presenter.Dispatch.{Commands, route, dispatch}

Check-cases : (r : Check) → (r ≡ ok tt) ⊎ ((e : Error) × (r ≡ err e))
Check-cases (ok u) = inl refl
Check-cases (err e) = inr (e, refl)

module _ {H : Type 0} (text_of : Error → Command → Text) (unknown_command : Text → Text) where
  route-item :
      (h : Commands H) (k : CommandKind) (c : Command) (s : H)
      → ((route text_of unknown_command h k c s).1.item ≡ c.item)
        × ((route text_of unknown_command h k c s).1.output ≡ c.output)
  unfolding route
  route-item h CommandKind.activate c s = ground arith
  route-item h _ c s = ground arith

  dispatch-item :
      (json_valid : Text → Bool) (handler : Option (Commands H)) (c : Command) (s : H)
      → let r = (dispatch text_of unknown_command json_valid handler c s).1 in
        (r.item ≡ c.item) × (r.output ≡ c.output)
  unfolding dispatch
  dispatch-item json_valid none c s = ground arith
  dispatch-item json_valid (some h) c s = ground (arith, route-item h c.kind c s)

  -- Every reply names the item and the output of its command, and passes the protocol's validator
  -- exactly when that key is all zero or valid and the outcome can be carried.
  pub dispatch-reply :
      (json_valid : Text → Bool) (handler : Option (Commands H)) (c : Command) (s : H)
      → let r = (dispatch text_of unknown_command json_valid handler c s).1 in
        (r.item ≡ c.item)
        × (r.output ≡ c.output)
        × ((validate_reply r ≡ ok tt) ↔ (IsOutcome r.is_success r.error × IsReplyKey c.item))
  unfolding dispatch
  dispatch-reply json_valid handler c s =
      let r = (dispatch text_of unknown_command json_valid handler c s).1 in
      let named = dispatch-item json_valid handler c s in
      (named.0, named.1, rw named.0 at (validate_reply_iff r))

  -- A command that the protocol does not accept reaches no handler: the handler's state is as it was,
  -- and the reply is the error `invalid`.
  pub dispatch_guard :
      (json_valid : Text → Bool) (handler : Option (Commands H)) (c : Command) (s : H)
      → ¬ IsCommand json_valid c
      → let p = dispatch text_of unknown_command json_valid handler c s in
        (p.0 ≡ s)
        × (p.1.is_success ≡ false)
        × ((m : Text) × (p.1.error ≡ some (record { code = ErrorCode.invalid; message = m })))
  unfolding dispatch
  dispatch_guard json_valid handler c s bad = elim (Check-cases (validate_command json_valid c)) [
    | inl fine ↦ absurd (bad ((validate_command_iff json_valid c).0 fine))
    | inr (e, refused) ↦ rw (refused, dispatch) (refl, refl, (text_of e c, refl))
  ]

  -- The reply to a command whose key is neither all zero nor valid does not pass the protocol's own
  -- validator, whatever the handler is.
  pub dispatch_bad_key :
      (json_valid : Text → Bool) (handler : Option (Commands H)) (c : Command) (s : H)
      → ¬ IsReplyKey c.item
      → validate_reply (dispatch text_of unknown_command json_valid handler c s).1 ≢ ok tt
  dispatch_bad_key json_valid handler c s bad e =
      bad ((dispatch-reply json_valid handler c s).2.0 e).1

  -- What each method of a handler does to its state, and nothing, is what a command does.
  module _ (R : ItemKey → H → H → Type 0) (idle : (k : ItemKey) (s : H) → R k s s) where
    pub record Methods (h : Commands H) : Type 0 where
      pub activate : (k : ItemKey) (x y : ℤ) (s : H) → R k s (h.activate k x y s).0
      pub secondary_activate :
          (k : ItemKey) (x y : ℤ) (s : H) → R k s (h.secondary_activate k x y s).0
      pub scroll :
          (k : ItemKey) (d : ℤ) (o : ScrollOrientation) (s : H) → R k s (h.scroll k d o s).0
      pub menu_open : (k : ItemKey) (n : ℕ) (id : ℤ) (s : H) → R k s (h.menu_open k n id s).0
      pub menu_select :
          (k : ItemKey) (n : ℕ) (id : ℤ) (t : ℕ) (s : H) → R k s (h.menu_select k n id t s).0
      pub about_to_show :
          (k : ItemKey) (n : ℕ) (id : ℤ) (s : H) → R k s (h.about_to_show k n id s).0
      pub menu_close : (k : ItemKey) (n : ℕ) (id : ℤ) (s : H) → R k s (h.menu_close k n id s).0
      pub terminate : (k : ItemKey) (s : H) → R k s (h.terminate k s).0

    route-Methods :
        (h : Commands H) (k : CommandKind) (c : Command) (s : H)
        → Methods h
        → R c.item s (route text_of unknown_command h k c s).0
    unfolding route
    route-Methods h CommandKind.activate c s m = m.activate c.item c.x c.y s
    route-Methods h CommandKind.secondary_activate c s m = m.secondary_activate c.item c.x c.y s
    route-Methods h CommandKind.scroll c s m = m.scroll c.item c.delta c.orientation s
    route-Methods h CommandKind.menu_open c s m = m.menu_open c.item c.menu_revision c.menu_id s
    route-Methods h CommandKind.menu_select c s m =
        m.menu_select c.item c.menu_revision c.menu_id c.serial s
    route-Methods h CommandKind.about_to_show c s m =
        m.about_to_show c.item c.menu_revision c.menu_id s
    route-Methods h CommandKind.menu_close c s m = m.menu_close c.item c.menu_revision c.menu_id s
    route-Methods h CommandKind.terminate c s m = m.terminate c.item s
    route-Methods h (CommandKind.other t) c s m = idle c.item s

    pub dispatch-Methods :
        (json_valid : Text → Bool) (h : Commands H) (c : Command) (s : H)
        → Methods h
        → R c.item s (dispatch text_of unknown_command json_valid (some h) c s).0
    unfolding dispatch
    dispatch-Methods json_valid h c s m = elim (Check-cases (validate_command json_valid c)) [
      | inl passed ↦ rw (passed, dispatch) (route-Methods h c.kind c s m)
      | inr (e, bad) ↦ rw (bad, dispatch) (idle c.item s)
    ]
