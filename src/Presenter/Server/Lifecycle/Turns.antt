-- ===== src/Presenter/Server/Lifecycle/Turns.antt =====
-- internal/presenter/server.go: what `handle` does to the current connection and to those that failed, and
-- the lists of connections.
use sysc_tray.Prelude.{
  ℕ, ◌+◌, ◌%◌, ◌^◌, ◌≡◌, ◌≢◌, ◌⊎◌, ◌↔◌, inl, inr, refl, arith, Bool, not, ◌&&◌, ◌||◌, ◌==◌, List,
  [], ◌∷◌, Option, none, some, if_elim, if_both, contains, is_ok,
}
use sysc_tray.Protocol.Types.{Snapshot}
use sysc_tray.Protocol.Items.{IconOrder}
use sysc_tray.Protocol.Snapshots.{validate_snapshot}
use sysc_tray.State.Owner.{attach}
use sysc_tray.Presenter.Server.{
  Server, fail, connection_done, enter, entered as entered_server, attached, take_over, replaced,
  released,
}
use sysc_tray.Presenter.Server.Lifecycle.{has, leave_out}

pub has-leave_out : (a id : ℕ) (xs : List ℕ) → has a (leave_out id xs) ≡ (has a xs && not (a == id))
unfolding leave_out contains
has-leave_out a id [] = refl
has-leave_out a id (x ∷ xs) = ground (arith, has-leave_out a id xs)

pub has-cons : (a x : ℕ) (xs : List ℕ) → has a (x ∷ xs) ≡ (a == x || has a xs)
unfolding contains
has-cons a x xs = ground arith

pub leave_out-idle : (id : ℕ) (xs : List ℕ) → xs ≡ [] → leave_out id xs ≡ []
leave_out-idle id xs h = rw h (unfold leave_out in refl)

pub released_iff : (id c : ℕ) (o : Option ℕ) → (released id o ≡ some c) ↔ ((o ≡ some c) × (c ≢ id))
unfolding released
released_iff id c none = ground arith
released_iff id c (some d) = ground arith

pub has-replaced :
    (id c old : ℕ) (failed : List ℕ)
    → has c (replaced id (some old) failed) ≡ ((c == old && not (old == id)) || has c failed)
unfolding replaced contains
has-replaced id c old failed = ground arith

-- What a step of the server does to the current connection and to those that failed.
abbrev pub Ended : ℕ → Server → Server → Type 0
Ended id s s' = (s'.current ≡ released id s.current) × (s'.failed ≡ id ∷ s.failed)

abbrev pub Taken : ℕ → Server → Server → Type 0
Taken id s s' = (s'.current ≡ some id) × (s'.failed ≡ replaced id s.current s.failed)

pub connection_done-Ended : (id : ℕ) (s : Server) → Ended id s (connection_done id s)
unfolding connection_done fail
connection_done-Ended id s = (refl, refl)

module _ (order : IconOrder) (prepares : Snapshot → Bool) where
  attached-cases :
      (id : ℕ) (s : Server) (o : Option Snapshot)
      → Taken id s (attached order prepares id s o) ⊎ Ended id s (attached order prepares id s o)
  unfolding attached take_over
  attached-cases id s none = inr (connection_done-Ended id s)
  attached-cases id s (some snapshot) =
      if_elim (λ s'. Taken id s s' ⊎ Ended id s s') (not (is_ok (validate_snapshot order snapshot)))
        _ _ (λ bad. inr (connection_done-Ended id s))
        (λ good.
          if_both (λ s'. Taken id s s' ⊎ Ended id s s') (prepares snapshot) _ _ (inl (refl, refl))
            (inr (unfold connection_done fail in (refl, refl))))

  pub enter-cases :
      (id : ℕ) (s : Server)
      → Taken id s (enter order prepares id s) ⊎ Ended id s (enter order prepares id s)
  unfolding enter entered_server
  enter-cases id s =
      attached-cases id
        (record s {
          owner = (attach id s.owner).0;
          next_generation = (s.next_generation + 1) % 2 ^ 64;
        })
        (attach id s.owner).1
