-- ===== src/Watcher/Server/Told.antt =====
-- What the server of internal/watcher/server.go tells its observer, whose goroutines take turns.
use sysc_tray.Prelude.{ℕ, ◌≤◌, ◌<◌, ◌^◌, ◌+◌, Bool, List, [], ◌∷◌, ◌++◌, arith, Text, length}
use sysc_tray.Prelude.Shuffles.{Shuffle, nil}
use sysc_tray.Watcher.Address.{Key}
use sysc_tray.Watcher.Registry.{
  Event, Observed, stop, Observed-append, IsRegistry, Observed-IsRegistry, Observed-Rises, Rises,
}
use sysc_tray.Watcher.Telling.{
  Telling, nothing_told, all_due, everything, additions, removals, promise, tell, promise-Shuffle,
  tell-Shuffle, told_once,
}
use sysc_tray.Watcher.Server.{Server, new_server, call, Turn, calls, tells, take_turn, run_turns}
use sysc_tray.Watcher.Server.Served.{IsStep, call-IsStep}

-- The changes so far, and what the observer was told of them.
IsTold : Server × Telling → ℕ → List Event → Type 0
IsTold (s, t) n changes =
    Observed 0 [] changes s.generation s.items × (s.generation ≤ n) × Shuffle changes (everything t)

-- A server that has handled fewer than 2 ^ 64 registrations and signals, and what the observer was told.
pub record IsServed (s : Server) (t : Telling) : Type 0 where
  pub items : IsRegistry s.generation s.items
  pub changes :
      (es : List Event) × Observed 0 [] es s.generation s.items
      × Rises 0 es
      × Shuffle es (everything t)
  pub once : (k : Key) → (additions k t.told ≤ 1) × (removals k t.told ≤ 1)

module _ (path_valid : Text → Bool) where
  run_turns-IsTold :
      (x : Server × Telling) (ts : List Turn) (n : ℕ) (changes : List Event)
      → n + length ts < 2 ^ 64
      → IsTold x n changes
      → (es : List Event) × IsTold (run_turns path_valid x ts) (n + length ts) es
  unfolding run_turns take_turn IsTold IsStep
  run_turns-IsTold x [] n changes room h = (changes, (h.0, omega arith, h.2))
  run_turns-IsTold (s, t) (calls c ∷ ts) n changes room (o, bound, s') =
      let out = call path_valid s c in
      let step = call-IsStep path_valid s c (omega arith) in
      let (es, (p, q, r)) =
        run_turns-IsTold (out.server, promise out.events t) ts (n + 1) (changes ++ out.events)
          (omega arith)
          (Observed-append o step.0, omega arith, promise-Shuffle out.events t changes s') in
      (es, (p, omega arith, r))
  run_turns-IsTold (s, t) (tells k ∷ ts) n changes room (o, bound, s') =
      let (es, (p, q, r)) =
        run_turns-IsTold (s, tell k t) ts (n + 1) changes (omega arith)
          (o, omega arith, tell-Shuffle k t changes s') in
      (es, (p, omega arith, r))

  -- A new server that has taken fewer than 2 ^ 64 turns, in any order of the registrations, the signals and the
  -- calls of the observer by their goroutines: the changes of its items were, each time, a registration
  -- of a free address with the next generation or the end of an item that was there. No address and no
  -- generation occurs twice among the items. What the observer was told and what the goroutines have
  -- to tell it yet are these changes, each once, in some order; no key was told twice as added, or as
  -- removed.
  pub run_turns-IsServed :
      (ts : List Turn)
      → length ts < 2 ^ 64
      → let (s, t) = run_turns path_valid (new_server, nothing_told) ts in IsServed s t
  unfolding IsTold all_due
  run_turns-IsServed ts room =
      let x = run_turns path_valid (new_server, nothing_told) ts in
      let (es, (o, bound, s)) =
        run_turns-IsTold (new_server, nothing_told) ts 0 [] (omega arith)
          (stop, omega arith, nil) in
      record {
        items = Observed-IsRegistry o tt;
        changes = (es, o, Observed-Rises o, s);
        once = λ k. told_once k x.1 x.0.generation x.0.items es o s;
      }
