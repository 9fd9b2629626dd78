-- ===== src/Watcher/Loop/Turns.antt =====
-- internal/watcher/attach.go: what the loop of `Run` leaves behind it, turn by turn.
use sysc_tray.Prelude.{
  ℕ, ◌≡◌, ◌≤◌, ◌<◌, ◌^◌, ◌⊎◌, inl, inr, refl, arith, Bool, true, false, List, [], ◌∷◌, ◌++◌,
  if_both, Text, Result, ok, err, length, All, All-append,
}
use sysc_tray.Matches.{Rule, Asked}
use sysc_tray.Matches.Balance.{added_times, removed_times, added-append, removed-append}
use sysc_tray.Watcher.Attach.{new_host, Attached, attach, live, close as close_host}
use sysc_tray.Prelude.Shuffles.{Shuffle-refl}
use sysc_tray.Watcher.Attach.Balanced.{handled, attach-close}
use sysc_tray.Watcher.Serving.{
  Serving, ServeError, Bus, idle_bus, serve, close as close_server, serve-close, initial_backoff,
  max_backoff, next_backoff, next_backoff_bounds,
}
use sysc_tray.Watcher.Loop.{
  Mode, stopped, owner, attached, Round, Once, new_serving, own, host_ends, host_attached, served,
  serve_once, Ran, halt, after, run,
}

-- Each time that a relationship begins, what is stored next is that it has stopped.
abbrev pub Alternates : List Mode → Type 0
Alternates [] = Unit
Alternates (stopped ∷ ms) = Alternates ms
Alternates (owner ∷ stopped ∷ ms) = Alternates ms
Alternates (attached ∷ stopped ∷ ms) = Alternates ms
Alternates (m ∷ ms) = ⊥

abbrev pub Even : List Asked → Type 0
Even asked = (q : Rule) → added_times q asked ≡ removed_times q asked

-- What a turn leaves.
record IsOver (o : Once) : Type 0 where
  modes : (ms : List Mode) → Alternates ms → Alternates (o.modes ++ ms)
  asked : Even o.asked
  bus : o.bus ≡ idle_bus

-- What the loop has done.
pub record IsRan (x : Ran) : Type 0 where
  pub modes : Alternates x.modes
  pub slept : All (λ d. (initial_backoff ≤ d) × (d ≤ max_backoff)) x.slept
  pub asked : Even x.asked
  pub buses : All (λ b. b ≡ idle_bus) x.buses

-- A round whose host handles fewer than 2 ^ 64 items and signals.
abbrev pub Fits : Round → Type 0
Fits r = length (handled r.answers r.early r.later) < 2 ^ 64

module _ (path_valid : Text → Bool) where
  host_attached-IsOver :
      (r : Round) (b : Bus) (x : Attached)
      → b ≡ idle_bus
      → (let (h', fs) = live path_valid r.later x.0 in Even (close_host path_valid h').0.asked)
      → IsOver (host_attached path_valid r b x)
  unfolding host_attached host_ends
  host_attached-IsOver r b (h, err e, es) idle even = record {
    modes = λ ms a. a;
    asked = even;
    bus = idle;
  }
  host_attached-IsOver r b (h, ok u, es) idle even = record {
    modes = λ ms a. a;
    asked = even;
    bus = idle;
  }

  served-IsOver :
      (r : Round) (x : Serving × Result ServeError (Unit {0}))
      → Fits r
      → ((x.1 ≡ ok tt)
          × (x.0.bus.name ≡ true)
          × ((close_server x.0).bus ≡ idle_bus)
          × ((close_server x.0).served ≡ false))
        ⊎ ((e : ServeError) × (x.1 ≡ err e) × (x.0.bus ≡ idle_bus) × (x.0.served ≡ false))
      → IsOver (served path_valid r x)
  unfolding served own
  served-IsOver r (s, ok u) fits (inl (good, named, idle, shut)) = record {
    modes = λ ms a. a;
    asked = λ q. unfold added_times removed_times in refl;
    bus = idle;
  }
  served-IsOver r (s, err e) fits (inr (e', bad, idle, shut)) =
      host_attached-IsOver r s.bus (attach path_valid r.answers r.early new_host) idle
        (let x = attach path_valid r.answers r.early new_host in
          let y = live path_valid r.later x.0 in
          attach-close path_valid r.answers r.early r.later (x.2 ++ y.1) fits
            (Shuffle-refl (x.2 ++ y.1))).0
  served-IsOver r (s, ok u) fits (inr (e', bad, idle, shut)) = absurd (ground arith)
  served-IsOver r (s, err e) fits (inl (good, named, idle, shut)) = absurd (ground arith)

  serve_once-IsOver : (r : Round) → Fits r → IsOver (serve_once path_valid r)
  unfolding serve_once
  serve_once-IsOver r fits =
      served-IsOver r (serve r.grants new_serving) fits
        (serve-close r.grants new_serving refl refl refl)

after-IsRan :
    (o : Once) (ds : List ℕ) (x : Ran)
    → IsOver o
    → All (λ d. (initial_backoff ≤ d) × (d ≤ max_backoff)) ds
    → IsRan x
    → IsRan (after o ds x)
unfolding after
after-IsRan o ds x over bounds h = record {
  modes = over.modes x.modes h.modes;
  slept = All-append (λ d. (initial_backoff ≤ d) × (d ≤ max_backoff)) ds x.slept bounds h.slept;
  asked = λ q. ground (
    arith,
    over.asked q,
    h.asked q,
    added-append q o.asked x.asked,
    removed-append q o.asked x.asked,
  );
  buses = (over.bus, h.buses);
}

halt-IsRan : IsRan (halt (stopped ∷ []))
unfolding halt added_times removed_times
halt-IsRan = record { modes = tt; slept = tt; asked = λ q. refl; buses = tt }

module _ (path_valid : Text → Bool) where
  -- From a backoff of 50 ms to 5 s, whatever the bus and the context do, with fewer than 2 ^ 64 items and
  -- signals in each turn: each mode that is stored, to own the name or to be attached, is followed by the
  -- one that it has stopped; the loop sleeps at least 50 ms and at most 5 s each time; each rule that was
  -- granted for a host was taken back; and no turn leaves anything of the server on the bus.
  pub run-IsRan :
      (b : ℕ) (rs : List Round)
      → initial_backoff ≤ b
      → b ≤ max_backoff
      → All (Fits) rs
      → IsRan (run path_valid b rs)
  unfolding run
  run-IsRan b [] low high fits = record {
    modes = tt;
    slept = tt;
    asked = λ q. unfold added_times removed_times in refl;
    buses = tt;
  }
  run-IsRan b (r ∷ rs) low high (one, fits) =
      let over = serve_once-IsOver path_valid r one in
      let o = serve_once path_valid r in
      let bounds = next_backoff_bounds b low in
      if_both IsRan r.cancelled_before _ _ halt-IsRan (
        if_both IsRan r.cancelled _ _ (after-IsRan o [] (halt (stopped ∷ [])) over tt halt-IsRan) (
          if_both IsRan o.progressed _ _
            (after-IsRan o [] (run path_valid initial_backoff rs) over tt
              (run-IsRan initial_backoff rs (omega arith) (omega arith) fits))
            (if_both IsRan r.wakes _ _
              (after-IsRan o (b ∷ []) (run path_valid (next_backoff b) rs) over ((low, high), tt)
                (run-IsRan (next_backoff b) rs bounds.0 bounds.1 fits))
              (after-IsRan o (b ∷ []) (halt (stopped ∷ [])) over ((low, high), tt) halt-IsRan))))
