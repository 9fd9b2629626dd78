-- ===== src/Watcher/Serving.antt =====
-- internal/watcher/server.go and attach.go: `Serve` with what it undoes when it fails, `Close`, and the
-- run loop with its backoff. `Bus` is what the connection holds for the server; each step of `Answers`
-- is whether the bus grants it. Times are nanoseconds.
use sysc_tray.Prelude.{
  ℕ, ◌≡◌, ◌≤◌, ◌⊎◌, inl, inr, refl, arith, ◌*◌, Bool, true, false, not, List, [], ◌∷◌,
  if◌then◌else◌, if_elim, ap, ltb, Result, ok, err, All,
}

pub record Bus : Type 0 where
  pub interface : Bool
  pub properties : Bool
  pub matched : Bool
  pub signals : Bool
  pub name : Bool

-- The connection before a server.
abbrev pub idle_bus : Bus
idle_bus = record {
  interface = false;
  properties = false;
  matched = false;
  signals = false;
  name = false;
}

pub data ServeError : Type 0 where
  already_started export_interface export_properties watch_names acquire_name : ServeError

pub record Answers : Type 0 where
  pub exports : Bool
  pub exports_properties : Bool
  pub adds_match : Bool
  pub primary_owner : Bool

pub record Serving : Type 0 where
  pub bus : Bus
  pub served : Bool
  pub closed : Bool

unexport : Bus → Bus
unexport b = record b { interface = false; properties = false }

unwatch : Bus → Bus
unwatch b = record b { matched = false; signals = false }

-- `Serve` of a server with its dependencies.
pub serve : Answers → Serving → Serving × Result ServeError (Unit {0})
unfolding unexport unwatch
serve a s =
    if s.served
    then (s, err already_started)
    else if not a.exports
    then (s, err export_interface)
    else if not a.exports_properties
    then (record s { bus = record s.bus { interface = false } }, err export_properties)
    else if not a.adds_match
    then (record s { bus = unexport s.bus }, err watch_names)
    else if not a.primary_owner
    then (record s { bus = unexport (unwatch s.bus) }, err acquire_name)
    else (
      record s {
        bus = record {
          interface = true;
          properties = true;
          matched = true;
          signals = true;
          name = true;
        };
        served = true;
      },
      ok tt,
    )

-- `Close`, once.
pub close : Serving → Serving
unfolding unexport unwatch
close s =
    if s.closed
    then s
    else if s.served
    then record {
      bus = record (unexport (unwatch s.bus)) { name = false };
      served = false;
      closed = true;
    }
    else record s { closed = true }

-- What a server is left as, and what Close makes of it.
Ends : Serving × Result ServeError (Unit {0}) → Type 0
Ends (s', r) =
    ((r ≡ ok tt) × (s'.bus.name ≡ true) × ((close s').bus ≡ idle_bus) × ((close s').served ≡ false))
    ⊎ ((e : ServeError) × (r ≡ err e) × (s'.bus ≡ idle_bus) × (s'.served ≡ false))

full_bus : Bus
full_bus = record {
  interface = true;
  properties = true;
  matched = true;
  signals = true;
  name = true;
}

served_close :
    (s : Serving)
    → s.closed ≡ false
    → let s' = close (record s { bus = full_bus; served = true }) in
      (s'.bus ≡ idle_bus) × (s'.served ≡ false)
unfolding close unexport unwatch full_bus
served_close s h =
    if_elim (λ (t : Serving). (t.bus ≡ idle_bus) × (t.served ≡ false)) s.closed _ _
      (λ e. absurd (ground arith)) (λ e. (refl, refl))

-- A new server on a connection that holds nothing of it, whatever the bus grants: Serve succeeds
-- with the name, and Close then takes everything off the bus again, or Serve fails and leaves
-- nothing there.
pub serve-close :
    (a : Answers) (s : Serving)
    → s.bus ≡ idle_bus
    → s.served ≡ false
    → s.closed ≡ false
    → let (s', r) = serve a s in
      ((r ≡ ok tt)
        × (s'.bus.name ≡ true)
        × ((close s').bus ≡ idle_bus)
        × ((close s').served ≡ false))
      ⊎ ((e : ServeError) × (r ≡ err e) × (s'.bus ≡ idle_bus) × (s'.served ≡ false))
unfolding serve close unexport unwatch Ends full_bus
serve-close a s empty fresh open_yet =
    if_elim Ends s.served _ _ (λ e. absurd (ground arith))
      (λ e1.
        if_elim Ends (not a.exports) _ _ (λ e. inr (export_interface, refl, empty, fresh))
          (λ e2.
            if_elim Ends (not a.exports_properties) _ _
              (λ e. inr (
                export_properties,
                refl,
                ap (λ (b : Bus). record b { interface = false }) empty,
                fresh,
              ))
              (λ e3.
                if_elim Ends (not a.adds_match) _ _
                  (λ e. inr (watch_names, refl, ap unexport empty, fresh))
                  (λ e4.
                    if_elim Ends (not a.primary_owner) _ _
                      (λ e. inr (acquire_name, refl, ap (λ b. unexport (unwatch b)) empty, fresh))
                      (λ e5.
                        let (free, ended) = served_close s open_yet in
                        inl (refl, refl, free, ended))))))

abbrev pub initial_backoff : ℕ
initial_backoff = 50000000

abbrev pub max_backoff : ℕ
max_backoff = 5000000000

-- `backoff *= 2`, up to the limit.
pub next_backoff : ℕ → ℕ
next_backoff b = if ltb max_backoff (2 * b) then max_backoff else 2 * b

pub next_backoff_bounds :
    (b : ℕ)
    → initial_backoff ≤ b
    → (initial_backoff ≤ next_backoff b) × (next_backoff b ≤ max_backoff)
unfolding next_backoff
next_backoff_bounds b low = ground arith

-- The sleeps of `Run` over attempts, each of which progressed or not.
pub sleeps : ℕ → List Bool → List ℕ
unfolding next_backoff
sleeps b [] = []
sleeps b (true ∷ rest) = sleeps initial_backoff rest
sleeps b (false ∷ rest) = b ∷ sleeps (next_backoff b) rest

-- From a backoff of 50 ms to 5 s, however the attempts end, the run loop sleeps at least 50 ms and
-- at most 5 s after a failure.
pub sleeps_bounds :
    (b : ℕ) (attempts : List Bool)
    → initial_backoff ≤ b
    → b ≤ max_backoff
    → All (λ d. (initial_backoff ≤ d) × (d ≤ max_backoff)) (sleeps b attempts)
unfolding sleeps next_backoff
sleeps_bounds b [] low high = tt
sleeps_bounds b (true ∷ rest) low high =
    sleeps_bounds initial_backoff rest (omega arith) (omega arith)
sleeps_bounds b (false ∷ rest) low high =
    ((low, high), sleeps_bounds (next_backoff b) rest (ground arith) (ground arith))
