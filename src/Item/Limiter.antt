-- ===== src/Item/Limiter.antt =====
-- internal/item/model.go: `Limiter`. Times are nanoseconds of one clock, read by the caller, and
-- `last` is `none` where the source has the zero time. The lock makes each operation one step.
use sysc_tray.Prelude.{
  ℕ, ◌+◌, ◌-◌, ◌≤◌, ◌≡◌, ◌≢◌, List, [], ◌∷◌, Option, none, some, arith, ltb, ◌==◌, Option-cases,
  ◌⊎◌, inl, inr, if◌then◌else◌,
}
use sysc_tray.Protocol.Types.{ItemKey}
use sysc_tray.Protocol.Fields.{key_eq, key_eq_iff}

-- `time.Second / 30` and `time.Second / 120`
abbrev pub per_item_interval : ℕ
per_item_interval = 33333333

abbrev pub global_interval : ℕ
global_interval = 8333333

pub record Limiter : Type 0 where
  pub per_key : List (ItemKey × ℕ)
  pub last : Option ℕ

-- `NewLimiter`
abbrev pub new_limiter : Limiter
new_limiter = record { per_key = []; last = none }

-- `l.perKey[key]`
unfoldable pub previous : ItemKey → List (ItemKey × ℕ) → Option ℕ
previous k [] = none
previous k ((j, t) ∷ m) = if key_eq j k then some t else previous k m

drop_key : ItemKey → List (ItemKey × ℕ) → List (ItemKey × ℕ)
drop_key k [] = []
drop_key k ((j, t) ∷ m) = let rest = drop_key k m in if key_eq j k then rest else (j, t) ∷ rest

-- `if next := t.Add(interval); next.After(earliest) { earliest = next }`
not_before : Option ℕ → ℕ → ℕ → ℕ
not_before none interval earliest = earliest
not_before (some t) interval earliest =
    if ltb earliest (t + interval) then t + interval else earliest

-- `Reserve` at the time `now`: 0, or how long to wait.
unfoldable pub reserve : ItemKey → ℕ → Limiter → Limiter × ℕ
unfolding not_before drop_key
reserve k now l =
    let earliest =
      not_before (previous k l.per_key) per_item_interval (not_before l.last global_interval now) in
    if ltb now earliest
    then (l, earliest - now)
    else (record { per_key = (k, now) ∷ drop_key k l.per_key; last = some now }, 0)

pub forget : ItemKey → Limiter → Limiter
unfolding drop_key
forget k l = record l { per_key = drop_key k l.per_key }

pub data Use : Type 0 where
  reserves : ItemKey → ℕ → Use
  forgets : ItemKey → Use

grant : ItemKey → ℕ → ℕ → List (ItemKey × ℕ) → List (ItemKey × ℕ)
grant k now wait rest = if wait == 0 then (k, now) ∷ rest else rest

-- The keys that were let through, each with its time.
pub grants : List Use → Limiter → List (ItemKey × ℕ)
unfolding grant
grants [] l = []
grants (reserves k now ∷ us) l = let (l', wait) = reserve k now l in grant k now wait (grants us l')
grants (forgets k ∷ us) l = grants us (forget k l)

-- At least the global interval lies between each and the one before it.
abbrev ApartBy : Option ℕ → ℕ → Type 0
ApartBy none now = Unit {0}
ApartBy (some t) now = t + global_interval ≤ now

abbrev pub IsSpaced : Option ℕ → List (ItemKey × ℕ) → Type 0
IsSpaced last [] = Unit {0}
IsSpaced last ((k, now) ∷ rest) = ApartBy last now × IsSpaced (some now) rest

abbrev granted : ItemKey → ℕ → Limiter → Limiter
granted k now l = record { per_key = (k, now) ∷ drop_key k l.per_key; last = some now }

reserve-cases :
    (k : ItemKey) (now : ℕ) (l : Limiter)
    → ((reserve k now l).0 ≡ l × (reserve k now l).1 ≢ 0)
      ⊎ ((reserve k now l).0 ≡ granted k now l × (reserve k now l).1 ≡ 0 × ApartBy l.last now)
unfolding reserve not_before
reserve-cases k now l = elim (Option-cases l.last) [
  | inl first ↦ ground arith
  | inr (t, later) ↦ ground arith
]

reserve_step :
    (k : ItemKey) (now : ℕ) (l : Limiter) (rest : Limiter → List (ItemKey × ℕ))
    → ((m : Limiter) → IsSpaced m.last (rest m))
    → IsSpaced l.last (grant k now (reserve k now l).1 (rest (reserve k now l).0))
unfolding grant
reserve_step k now l rest h = elim (reserve-cases k now l) [
  | inl (same, refused) ↦ rw same (ground (arith, h l))
  | inr (next, free, spaced) ↦ rw (next, free) (spaced, h (granted k now l))
]

-- Whatever the keys and the readings of the clock are, two refreshes that are let through one after
-- the other, be they of one item or of two, are at least a 120th of a second apart.
pub grants-IsSpaced : (us : List Use) (l : Limiter) → IsSpaced l.last (grants us l)
unfolding grants reserve forget grant not_before
grants-IsSpaced [] l = tt
grants-IsSpaced (reserves k now ∷ us) l =
    reserve_step k now l (λ m. grants us m) (grants-IsSpaced us)
grants-IsSpaced (forgets k ∷ us) l = grants-IsSpaced us (forget k l)

-- A refresh that is refused changes nothing, and is let through at the end of the wait that it was
-- told.
pub reserve_wait :
    (k : ItemKey) (now : ℕ) (l : Limiter)
    → (reserve k now l).1 ≢ 0
    → ((reserve k now l).0 ≡ l) × ((reserve k (now + (reserve k now l).1) l).1 ≡ 0)
unfolding reserve not_before
reserve_wait k now l h = ground arith

-- A refresh that is let through is at least a 30th of a second behind the last one of its item.
pub reserve_spacing :
    (k : ItemKey) (now later : ℕ) (l : Limiter)
    → (reserve k now l).1 ≡ 0
    → (reserve k later (reserve k now l).0).1 ≡ 0
    → now + per_item_interval ≤ later
unfolding reserve not_before previous drop_key
reserve_spacing k now later l h g = ground (arith, key_eq_iff k k)
