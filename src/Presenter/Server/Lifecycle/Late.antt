-- ===== src/Presenter/Server/Lifecycle/Late.antt =====
-- internal/presenter/server.go: a connection that becomes the current one after Close has failed the one
-- before it.
use sysc_tray.Prelude.{
  ℕ, ◌≡◌, ◌≢◌, refl, sym, arith, Bool, true, false, not, ◌&&◌, List, [], ◌∷◌, Option, none, some,
  if_elim, if_both, contains, All, ap, subst, is_ok, ◌+◌, ◌%◌, ◌^◌,
}
use sysc_tray.Protocol.Types.{Snapshot}
use sysc_tray.Protocol.Items.{IconOrder}
use sysc_tray.Protocol.Snapshots.{validate_snapshot}
use sysc_tray.State.Owner.{snapshot_locked}
use sysc_tray.Presenter.Server.{
  Server, fail, connection_done, enter, entered as entered_server, attached, take_over, passes,
  replaced, attach_running,
}
use sysc_tray.Presenter.Server.Lifecycle.{
  Life, has, serve, accept, accept_error, is_greeting, finish, refuse, leave, is_current,
  close_begin, is_idle, close_end, Step, serves, accepts, accept_fails, close_begins, close_ends,
  refuses, enters, leaves, entered, greet, take_step, run,
}
use sysc_tray.Presenter.Server.Lifecycle.Turns.{Taken, has-leave_out, has-cons, has-replaced}

-- The server stops, serves the connection, has not failed it, and Close has not returned.
abbrev pub Waits : ℕ → Life → Type 0
Waits id l =
    (l.stopping ≡ true)
    × (has id l.handlers ≡ true)
    × (has id l.served ≡ true)
    × (has id l.server.failed ≡ false)
    × (l.closed ≡ false)

-- The step is neither the end of this connection nor the entry of another one.
abbrev pub Spares : ℕ → Step → Type 0
Spares id (enters j) = ⊥
Spares id (leaves j) = j ≢ id
Spares id s = Unit

is_idle-has : (id : ℕ) (ids : List ℕ) → has id ids ≡ true → is_idle ids ≡ false
unfolding is_idle contains
is_idle-has id [] h = cc
is_idle-has id (x ∷ xs) h = refl

finish-Waits :
    (id j : ℕ) (l : Life) → j ≢ id → Waits id l → Waits id (finish j (connection_done j l.server) l)
unfolding finish connection_done fail
finish-Waits id j l other (a, b, c, d, e) = (
  a,
  ground (arith, has-leave_out id j l.handlers),
  ground (arith, has-leave_out id j l.served),
  ground (arith, has-cons id j l.server.failed),
  e,
)

not_failed :
    (id : ℕ) (o : Option ℕ) (failed : List ℕ)
    → has id failed ≡ false
    → has id (replaced id o failed) ≡ false
not_failed id none failed h = unfold replaced in h
not_failed id (some old) failed h = ground (arith, has-replaced id id old failed)

is_current_self : (id : ℕ) (o : Option ℕ) → o ≡ some id → is_current id o ≡ true
unfolding is_current
is_current_self id none h = cc
is_current_self id (some c) h = ground arith

module _ (order : IconOrder) (prepares : Snapshot → Bool) where
  attached-Taken :
      (id : ℕ) (s : Server) (snapshot : Snapshot)
      → passes order prepares snapshot ≡ true
      → Taken id s (attached order prepares id s (some snapshot))
  unfolding attached take_over passes
  attached-Taken id s snapshot good =
      if_elim (Taken id s) (not (is_ok (validate_snapshot order snapshot))) _ _
        (λ bad. absurd (ground arith))
        (λ valid.
          if_elim (Taken id s) (prepares snapshot) _ _ (λ can. (refl, refl))
            (λ cannot. absurd (ground arith)))

  enter-Taken :
      (id : ℕ) (s : Server)
      → s.owner.stopped ≡ false
      → passes order prepares (snapshot_locked s.owner) ≡ true
      → Taken id s (enter order prepares id s)
  unfolding enter entered_server
  enter-Taken id s running good =
      subst (λ r. Taken id s (entered_server order prepares id s r))
        (sym (attach_running id s.owner running))
        (attached-Taken id
          (record s {
            owner = record s.owner { sink = some id };
            next_generation = (s.next_generation + 1) % 2 ^ 64;
          })
          (snapshot_locked s.owner) good)

  entered-Waits :
      (id : ℕ) (l : Life) (s : Server)
      → Taken id l.server s
      → l.stopping ≡ true
      → has id l.handlers ≡ true
      → has id l.server.failed ≡ false
      → l.closed ≡ false
      → Waits id (entered order prepares id l s)
  unfolding entered
  entered-Waits id l s (now, failed) stops there kept not_yet =
      if_elim (Waits id) (is_current id s.current) _ _
        (λ e. (
          stops,
          there,
          ground (arith, has-cons id id l.served),
          rw failed (not_failed id l.server.current l.server.failed kept),
          not_yet,
        ))
        (λ e. absurd (ground (arith, is_current_self id s.current)))

  take_step-Waits :
      (id : ℕ) (l : Life) (s : Step)
      → Spares id s
      → Waits id l
      → Waits id (take_step order prepares l s)
  unfolding take_step serve accept accept_error refuse leave close_begin close_end is_greeting
  take_step-Waits id l (serves b) u w =
      if_both (Waits id) l.started _ _ w (if_both (Waits id) b _ _ w w)
  take_step-Waits id l accepts u w =
      let (a, b, c, d, e) = w in
      if_both (Waits id) (l.accepting && l.listening) _ _
        (a, ground (arith, has-cons id l.next l.handlers), c, d, e) w
  take_step-Waits id l accept_fails u w = if_both (Waits id) l.accepting _ _ w w
  take_step-Waits id l close_begins u w =
      if_elim (Waits id) l.stopping _ _ (λ e. w) (λ e. absurd (ground arith))
  take_step-Waits id l close_ends u w =
      if_elim (Waits id) (l.stopping && (is_idle l.handlers && not l.accepting)) _ _
        (λ can. absurd (ground (arith, is_idle-has id l.handlers))) (λ cannot. w)
  take_step-Waits id l (refuses j) u w =
      if_elim (Waits id) (has j l.handlers && not (has j l.served)) _ _
        (λ can. finish-Waits id j l (λ same. ground (arith, ap (λ x. has x l.served) same)) w)
        (λ cannot. w)
  take_step-Waits id l (enters j) u w = absurd u
  take_step-Waits id l (leaves j) u w =
      if_both (Waits id) (has j l.served) _ _ (finish-Waits id j l u w) w

  run-Waits :
      (id : ℕ) (l : Life) (ss : List Step)
      → All (Spares id) ss
      → Waits id l
      → Waits id (run order prepares l ss)
  unfolding run
  run-Waits id l [] u w = w
  run-Waits id l (s ∷ ss) (u, us) w =
      run-Waits id (take_step order prepares l s) ss us (take_step-Waits id l s u w)

  -- A connection that was accepted and has not failed, and whose handshake ends after Close has begun, while
  -- the state owner runs and its snapshot can be sent: it is served, and as long as it does not end by
  -- itself and no other one enters, whatever else happens, it is not failed, and Close does not return.
  pub close_waits :
      (id : ℕ) (l : Life) (ss : List Step)
      → l.stopping ≡ true
      → l.closed ≡ false
      → is_greeting id l ≡ true
      → has id l.server.failed ≡ false
      → l.server.owner.stopped ≡ false
      → passes order prepares (snapshot_locked l.server.owner) ≡ true
      → All (Spares id) ss
      → let l' = run order prepares (take_step order prepares l (enters id)) ss in
        (has id l'.served ≡ true) × (has id l'.server.failed ≡ false) × (l'.closed ≡ false)
  unfolding take_step greet
  close_waits id l ss stops not_yet fresh kept running good spares =
      let entering =
        if_elim (Waits id) (is_greeting id l)
          (entered order prepares id l (enter order prepares id l.server)) l
          (λ e.
            entered-Waits id l (enter order prepares id l.server)
              (enter-Taken id l.server running good) stops (unfold is_greeting in ground arith) kept
              not_yet)
          (λ e. absurd (ground arith)) in
      let (a, b, c, d, e) =
        run-Waits id (take_step order prepares l (enters id)) ss spares entering in
      (c, d, e)
