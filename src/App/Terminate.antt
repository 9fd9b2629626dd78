-- ===== src/App/Terminate.antt =====
-- internal/app/run.go: `Terminate`, which asks the process behind an item to leave. `World` holds what
-- is outside: the system as it answers in each round, the readings of the clock, in nanoseconds, the
-- first of which sets the deadline, and whether os.Process.Signal succeeds.
use sysc_tray.Prelude.{
  ℕ, zero, suc, ◌+◌, ◌*◌, ◌≤◌, ◌<◌, ◌≡◌, ◌≢◌, ◌⊎◌, inl, inr, refl, sym, ap, ◌∙◌, arith, Bool, true,
  false, not, ◌||◌, List, [], ◌∷◌, Option, none, some, if◌then◌else◌, if_elim, if_both, ltb, Result,
  ok, err, Bool-cases,
}
use sysc_tray.Protocol.Types.{ItemKey, ErrorCode, invalid, stale_item, unavailable, busy}
use sysc_tray.Ownership.{Record, Failure, System, inspect, verify, verify_iff, is_alive, same_user}
use sysc_tray.App.{Worker, App, worker_of}

pub record World : Type 0 where
  pub system : ℕ → System
  pub clock : ℕ → ℕ
  pub signalled : ℕ → Bool

abbrev pub terminate_wait : ℕ
terminate_wait = 3000000000

abbrev pub terminate_poll : ℕ
terminate_poll = 100000000

-- The processes that SIGTERM was sent to, whether that succeeded or not, and the answer; `none` means that the fuel ran out.
pub record Terminated : Type 0 where
  pub signals : List ℕ
  pub answer : Option (Result ErrorCode (Unit {0}))

Check-cases : (r : Result Failure (Unit {0})) → ((e : Failure) × (r ≡ err e)) ⊎ (r ≡ ok tt)
Check-cases (err e) = inl (e, refl)
Check-cases (ok t) = inr refl

refuse : ErrorCode → Terminated
refuse e = record { signals = []; answer = some (err e) }

-- The rounds before the deadline, of a poll each, and the one behind it.
abbrev rounds : ℕ
rounds = 32

module _ (world : World) where
  -- `reown`
  verified : Record → Option Record → Option Record
  verified recorded none = none
  verified recorded (some current) = elim (verify recorded current) [
    | err e ↦ none
    | ok t ↦ some recorded
  ]

  reown_record : Worker → Option Record → Option Record
  unfolding verified
  reown_record w none = none
  reown_record w (some recorded) = verified recorded (inspect (world.system 0) w.key.owner)

  pub reown : Worker → Option Record
  unfolding reown_record
  reown w = reown_record w w.own

  -- The loop of the wait, from a round on.
  wait : ℕ → ℕ → Record → Option (Result ErrorCode (Unit {0}))
  wait zero n r = none
  wait (suc fuel) n r =
      let later = wait fuel (suc n) r in
      if not (is_alive (world.system (suc n)) r)
      then some (ok tt)
      else if ltb (world.clock 0 + terminate_wait) (world.clock (suc n))
      then some (err busy)
      else later

  send : Record → Terminated
  unfolding wait refuse
  send r =
      if not (same_user (world.system 0) r)
      then refuse invalid
      else if world.signalled r.pid
      then record { signals = r.pid ∷ []; answer = wait rounds 0 r }
      else record { signals = r.pid ∷ []; answer = some (err unavailable) }

  reowned : Option Record → Terminated
  unfolding send refuse
  reowned none = refuse invalid
  reowned (some r) = send r

  found : Option Worker → Terminated
  unfolding reown reowned refuse
  found none = refuse stale_item
  found (some w) = reowned (reown w)

  pub terminate : App → ItemKey → Terminated
  unfolding found refuse
  terminate a k =
      if a.closing || not a.connected then refuse unavailable else found (worker_of k a.workers)

  -- The clock does not go back, and time.Sleep waits for at least as long as it is told.
  pub record Sleeps : Type 0 where
    pub start : world.clock 0 ≤ world.clock 1
    pub poll : (n : ℕ) → world.clock (suc n) + terminate_poll ≤ world.clock (suc (suc n))

  clock_lem : Sleeps → (n : ℕ) → world.clock 0 + n * terminate_poll ≤ world.clock (suc n)
  clock_lem h zero = omega (arith, h.start)
  clock_lem h (suc n) = omega (arith, clock_lem h n, h.poll n)

  wait-ends : Sleeps → (fuel n : ℕ) (r : Record) → 31 < n + fuel → n ≤ 31 → wait fuel n r ≢ none
  unfolding wait
  wait-ends h zero n r enough le = absurd (omega arith)
  wait-ends h (suc fuel) n r enough le =
      if_elim (λ o. o ≢ none) (not (is_alive (world.system (suc n)) r)) _ _ (λ dead e. ground arith)
        (λ alive.
          if_elim (λ o. o ≢ none) (ltb (world.clock 0 + terminate_wait) (world.clock (suc n))) _ _
            (λ late e. ground arith)
            (λ early. wait-ends h fuel (suc n) r (omega arith) (ground (arith, clock_lem h n))))

  Answers : Terminated → Type 0
  Answers t = t.answer ≢ none

  send-Answers : Sleeps → (r : Record) → Answers (send r)
  unfolding Answers send refuse
  send-Answers h r =
      if_both Answers (not (same_user (world.system 0) r)) _ _ (λ e. ground arith)
        (if_both Answers (world.signalled r.pid) _ _
          (wait-ends h rounds 0 r (omega arith) (omega arith)) (λ e. ground arith))

  reowned-Answers : Sleeps → (o : Option Record) → Answers (reowned o)
  unfolding Answers reowned refuse
  reowned-Answers h none = λ e. ground arith
  reowned-Answers h (some r) = send-Answers h r

  found-Answers : Sleeps → (o : Option Worker) → Answers (found o)
  unfolding Answers found refuse
  found-Answers h none = λ e. ground arith
  found-Answers h (some w) = reowned-Answers h (reown w)

  -- With a clock that does not go back and sleeps that last as long as they are told to, Terminate
  -- always answers, within 32 looks at the process, whether it leaves or not.
  pub terminate-ends : Sleeps → (a : App) (k : ItemKey) → (terminate a k).answer ≢ none
  unfolding terminate Answers refuse
  terminate-ends h a k =
      if_both Answers (a.closing || not a.connected) _ _ (λ e. ground arith)
        (found-Answers h (worker_of k a.workers))

  -- A process that was verified: the record of the worker is what an inspection finds now.
  pub record IsVerified (w : Worker) (r : Record) : Type 0 where
    pub own : w.own ≡ some r
    pub now : inspect (world.system 0) w.key.owner ≡ some r
    pub process : r.pid ≢ 0
    pub user : same_user (world.system 0) r ≡ true

  Aims : Option Worker → Terminated → Type 0
  Aims o t =
      (t.signals ≡ [])
      ⊎ ((w : Worker) × (r : Record) × (t.signals ≡ r.pid ∷ []) × (o ≡ some w) × IsVerified w r)

  verified_lem :
      (recorded : Record) (o : Option Record) (r : Record)
      → verified recorded o ≡ some r
      → (r ≡ recorded) × (o ≡ some r) × (r.pid ≢ 0)
  unfolding verified
  verified_lem recorded none r h = ground arith
  verified_lem recorded (some current) r h = elim (Check-cases (verify recorded current)) [
    | inl (e, bad) ↦ ground arith
    | inr good ↦ let (same, set) = (verify_iff recorded current).0 good in ground (arith, same, set)
  ]

  reown_record-IsVerified :
      (w : Worker) (o : Option Record) (r : Record)
      → w.own ≡ o
      → reown_record w o ≡ some r
      → same_user (world.system 0) r ≡ true
      → IsVerified w r
  unfolding reown_record
  reown_record-IsVerified w none r e h user = ground arith
  reown_record-IsVerified w (some recorded) r e h user =
      let (same, now, set) = verified_lem recorded (inspect (world.system 0) w.key.owner) r h in
      record { own = e ∙ ap some (sym same); now = now; process = set; user = user }

  send-Aims :
      (w : Worker) (r : Record)
      → (same_user (world.system 0) r ≡ true → IsVerified w r)
      → Aims (some w) (send r)
  unfolding Aims send refuse
  send-Aims w r h =
      if_elim (Aims (some w)) (not (same_user (world.system 0) r)) _ _ (λ other. inl refl)
        (λ user.
          let aimed = h (ground arith) in
          if_both (Aims (some w)) (world.signalled r.pid) _ _ (inr (w, r, refl, refl, aimed))
            (inr (w, r, refl, refl, aimed)))

  reowned-Aims :
      (w : Worker) (o : Option Record)
      → ((r : Record) → o ≡ some r → same_user (world.system 0) r ≡ true → IsVerified w r)
      → Aims (some w) (reowned o)
  unfolding Aims reowned refuse
  reowned-Aims w none h = inl refl
  reowned-Aims w (some r) h = send-Aims w r (h r refl)

  found-Aims : (o : Option Worker) → Aims o (found o)
  unfolding Aims found refuse reown
  found-Aims none = inl refl
  found-Aims (some w) = reowned-Aims w (reown w) (λ r. reown_record-IsVerified w w.own r refl)

  -- Terminate sends SIGTERM to no process, or to one: then the service is not closing, the key has a
  -- worker, and the process is the one that was recorded for it, with the same user, the same process
  -- ID and the same start time as an inspection finds now, and it belongs to the user of the service.
  pub terminate_lem :
      (a : App) (k : ItemKey)
      → ((terminate a k).signals ≡ [])
        ⊎ ((w : Worker) × (r : Record) × ((terminate a k).signals ≡ r.pid ∷ [])
            × (a.closing ≡ false)
            × (worker_of k a.workers ≡ some w)
            × IsVerified w r)
  unfolding terminate refuse Aims
  terminate_lem a k = elim (Bool-cases (a.closing || not a.connected)) [
    | inl ending ↦ inl (ground arith)
    | inr on ↦ elim (found-Aims (worker_of k a.workers)) [
      | inl quiet ↦ inl (ground arith)
      | inr (w, r, sent, there, is) ↦ inr (w, r, ground arith, ground arith, there, is)
    ]
  ]
