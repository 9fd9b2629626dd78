-- ===== src/Ownership.antt =====
-- internal/ownership/ownership.go: the identity of the process behind an item. `System` holds what
-- is outside: the answers of the bus and of /proc, and strings.Fields and strconv.ParseUint, of which
-- nothing is assumed. An error is the way to fail, without its text.
use sysc_tray.Prelude.{
  ℕ, zero, suc, ◌≡◌, refl, ◌≢◌, ◌↔◌, Bool, true, false, not, ◌&&◌, ◌||◌, List, [], ◌∷◌, ◌++◌,
  Option, none, some, arith, ◌==◌, if◌then◌else◌, Text, text_eq, Result, ok, ◌>>◌, require,
}

pub record Record : Type 0 where
  pub uid : ℕ
  pub pid : ℕ
  pub start_time : ℕ

pub data Failure : Type 0 where
  unavailable uid_changed pid_changed pid_recycled : Failure

-- `GetConnectionUnixUser` and `GetConnectionUnixProcessID` of an owner, the file of a process, and
-- the user of the service.
pub record System : Type 0 where
  pub unix_user : Text → Option ℕ
  pub unix_process_id : Text → Option ℕ
  pub read_stat : ℕ → Option Text
  pub fields : Text → List Text
  pub parse_uint : Text → Option ℕ
  pub service_uid : ℕ

-- Whether a text goes on as ") " does, and the text behind it.
behind_here : ℕ → Text → Option Text
behind_here c [] = none
behind_here c (d ∷ ds) = if (c == 41) && (d == 32) then some ds else none

-- The text behind the last ") ": `strings.LastIndex` and the slice.
unfoldable pub behind_last : Text → Option Text
unfolding behind_here
behind_last [] = none
behind_last (c ∷ cs) = elim (behind_last cs) [ some rest ↦ some rest | none ↦ behind_here c cs ]

infixl 5 ◌>>=◌
abbrev ◌>>=◌ : {A B : Type 0} → Option A → (A → Option B) → Option B
none >>= f = none
some a >>= f = f a

-- The field 22 of the file is number 19 behind the name of the program.
field : ℕ → List Text → Option Text
field n [] = none
field zero (x ∷ xs) = some x
field (suc n) (x ∷ xs) = field n xs

module _ (system : System) where
  -- `readStartTime` on the text of the file.
  pub start_time_of : Text → Option ℕ
  unfolding behind_last field
  start_time_of text = do
    rest ← behind_last text
    value ← field 19 (system.fields rest)
    system.parse_uint value

  pub read_start_time : ℕ → Option ℕ
  unfolding start_time_of
  read_start_time pid = do text ← system.read_stat pid; start_time_of text

  -- `Inspect` with a connection.
  unfoldable pub inspect : Text → Option Record
  unfolding read_start_time
  inspect owner = if text_eq owner [] then none else (do
    uid ← system.unix_user owner
    pid ← system.unix_process_id owner
    start ← (if pid == 0 then none else read_start_time pid)
    some (record { uid = uid; pid = pid; start_time = start }))

  pub same_user : Record → Bool
  same_user r = not (r.pid == 0) && (r.uid == system.service_uid)

  pub is_alive : Record → Bool
  unfolding read_start_time
  is_alive r =
      if r.pid == 0
      then false
      else elim (read_start_time r.pid) [ none ↦ false | some start ↦ start == r.start_time ]

pub verify : Record → Record → Result Failure (Unit {0})
verify recorded now =
    require (not ((recorded.pid == 0) || (now.pid == 0))) unavailable
    >> require (recorded.uid == now.uid) uid_changed
    >> require (recorded.pid == now.pid) pid_changed
    >> require (recorded.start_time == now.start_time) pid_recycled

-- A fresh inspection is accepted exactly when it is the recorded identity and names a process: a
-- changed user, a changed process and a reused process ID are all refused.
pub verify_iff :
    (recorded now : Record)
    → (verify recorded now ≡ ok tt) ↔ ((recorded ≡ now) × (recorded.pid ≢ 0))
unfolding verify
verify_iff recorded now = ground arith

-- An inspection that succeeds finds a process that is alive, and that is accepted as itself.
pub inspect-is_alive :
    (system : System) (owner : Text) (r : Record)
    → inspect system owner ≡ some r
    → (is_alive system r ≡ true) × (verify r r ≡ ok tt)
unfolding inspect is_alive verify
inspect-is_alive system owner r h = ground arith

behind_last-tail :
    (c : ℕ) (cs rest : Text) → behind_last cs ≡ some rest → behind_last (c ∷ cs) ≡ some rest
unfolding behind_last
behind_last-tail c cs rest h = ground arith

behind_last-append :
    (before rest : Text)
    → behind_last rest ≡ none
    → behind_last (before ++ 41 ∷ 32 ∷ rest) ≡ some rest
unfolding behind_last behind_here
behind_last-append [] rest h = ground (arith, h)
behind_last-append (c ∷ before) rest h =
    behind_last-tail c (before ++ 41 ∷ 32 ∷ rest) rest (behind_last-append before rest h)

-- The start time is read behind the name of the program whatever that name is, spaces and brackets
-- included, when the rest of the line has no ") ": two lines that differ in what stands before have
-- the same start time.
pub start_time_of-name :
    (system : System) (name other_name rest : Text)
    → behind_last rest ≡ none
    → start_time_of system (name ++ 41 ∷ 32 ∷ rest)
      ≡ start_time_of system (other_name ++ 41 ∷ 32 ∷ rest)
unfolding start_time_of
start_time_of-name system name other_name rest h =
    rw (behind_last-append name rest h, behind_last-append other_name rest h) refl
