-- ===== src/Watcher/Telling.antt =====
-- internal/watcher: how the observer is told. A goroutine changes the map of the items under the lock, and
-- calls the observer after it has released it, so the calls of two goroutines can come in another order
-- than the changes.
use sysc_tray.Prelude.{
  ℕ, zero, suc, ◌≡◌, ◌≤◌, ◌+◌, ◌↔◌, ◌&&◌, ◌==◌, text_eq, text_eq_iff, refl, ap, arith, Bool, true,
  List, [], ◌∷◌, ◌++◌, if◌then◌else◌, sum_by, sum_by-append, Bool-cases, inl, inr,
}
use mathlib.Core.List.{append_assoc}
use sysc_tray.Prelude.Shuffles.{
  Shuffle, nil, trans, Shuffle-refl, Shuffle-append_left, Shuffle-append_right, Shuffle-append_comm,
  Shuffle-sum_by,
}
use sysc_tray.Watcher.Address.{Key}
use sysc_tray.Watcher.Registry.{
  Event, added, removed, Observed, stop, add, remove, Rises, Observed-Rises,
}

-- What each goroutine has to tell yet, in its order, and what the observer was told.
pub record Telling : Type 0 where
  pub due : List (List Event)
  pub told : List Event

abbrev pub nothing_told : Telling
nothing_told = record { due = []; told = [] }

-- A goroutine that has changed the map.
unfoldable pub promise : List Event → Telling → Telling
promise es t = record t { due = es ∷ t.due }

-- The next call of the goroutine at a place.
unfoldable pub next_call : ℕ → List (List Event) → List Event × List (List Event)
next_call n [] = ([], [])
next_call zero ([] ∷ d) = ([], [] ∷ d)
next_call zero ((e ∷ es) ∷ d) = (e ∷ [], es ∷ d)
next_call (suc n) (es ∷ d) = let (f, d') = next_call n d in (f, es ∷ d')

unfoldable pub tell : ℕ → Telling → Telling
unfolding next_call
tell n t = let (f, d) = next_call n t.due in record { due = d; told = t.told ++ f }

-- All that is due.
unfoldable pub all_due : List (List Event) → List Event
all_due [] = []
all_due (es ∷ d) = es ++ all_due d

-- What is told next is taken from what is due.
next_call-Shuffle :
    (n : ℕ) (d : List (List Event))
    → Shuffle (all_due d) ((next_call n d).0 ++ all_due (next_call n d).1)
unfolding next_call all_due
next_call-Shuffle n [] = nil
next_call-Shuffle zero ([] ∷ d) = Shuffle-refl (all_due d)
next_call-Shuffle zero ((e ∷ es) ∷ d) = Shuffle-refl (e ∷ es ++ all_due d)
next_call-Shuffle (suc n) (es ∷ d) =
    let (f, d') = next_call n d in
    rw⁻¹ (append_assoc f es (all_due d')) (
      trans (Shuffle-append_left es (next_call-Shuffle n d)) (
        rw⁻¹ (append_assoc es f (all_due d'))
          (Shuffle-append_right (all_due d') (Shuffle-append_comm es f))))

-- What was told and what is due, in some order.
abbrev pub everything : Telling → List Event
everything t = t.told ++ all_due t.due

pub tell-Shuffle :
    (n : ℕ) (t : Telling) (changes : List Event)
    → Shuffle changes (everything t)
    → Shuffle changes (everything (tell n t))
unfolding tell
tell-Shuffle n t changes s =
    let (f, d) = next_call n t.due in
    trans s (
      rw (append_assoc t.told f (all_due d))
        (Shuffle-append_left t.told (next_call-Shuffle n t.due)))

pub promise-Shuffle :
    (es : List Event) (t : Telling) (changes : List Event)
    → Shuffle changes (everything t)
    → Shuffle (changes ++ es) (everything (promise es t))
unfolding promise all_due
promise-Shuffle es t changes s = trans (Shuffle-append_right es s) (
    rw (append_assoc t.told (all_due t.due) es)
      (Shuffle-append_left t.told (Shuffle-append_comm (all_due t.due) es)))

key_eq : Key → Key → Bool
key_eq k j =
    text_eq k.owner j.owner
    && (text_eq k.object_path j.object_path && (k.generation == j.generation))

key_eq_iff : (k j : Key) → (key_eq k j ≡ true) ↔ (k ≡ j)
unfolding key_eq
key_eq_iff k j =
    ground (arith, text_eq_iff k.owner j.owner, text_eq_iff k.object_path j.object_path)

same : Key → Key → ℕ
same k j = if key_eq k j then 1 else 0

is_added : Key → Event → ℕ
is_added k (added j) = same k j
is_added k (removed j) = 0

is_removed : Key → Event → ℕ
is_removed k (added j) = 0
is_removed k (removed j) = same k j

-- How often a key is told as added, and as removed, and how often the map has it.
unfoldable pub additions : Key → List Event → ℕ
unfolding is_added same key_eq
additions k es = sum_by (is_added k) es

unfoldable pub removals : Key → List Event → ℕ
unfolding is_removed same key_eq
removals k es = sum_by (is_removed k) es

occurrences : Key → List Key → ℕ
occurrences k ks = sum_by (same k) ks

balance :
    (k : Key) {g g' : ℕ} {ks ks' : List Key} {es : List Event}
    → Observed g ks es g' ks'
    → additions k es + occurrences k ks ≡ removals k es + occurrences k ks'
unfolding additions removals occurrences is_added is_removed
balance k stop = refl
balance k (add j fresh next o) = omega (arith, balance k o)
balance k (remove {ks = ks} j xs ys e o) = omega (
  arith,
  balance k o,
  ap (sum_by (same k)) e,
  sum_by-append (same k) xs (j ∷ ys),
  sum_by-append (same k) xs ys,
)

no_addition :
    (k : Key) (g : ℕ) (es : List Event) → k.generation ≤ g → Rises g es → additions k es ≡ 0
unfolding additions is_added same
no_addition k g [] le h = refl
no_addition k g (added j ∷ es) le h = ground (arith, no_addition k j.generation es, key_eq_iff k j)
no_addition k g (removed j ∷ es) le h = omega (arith, no_addition k g es le h)

one_addition : (k : Key) (g : ℕ) (es : List Event) → Rises g es → additions k es ≤ 1
unfolding additions is_added same
one_addition k g [] h = omega arith
one_addition k g (added j ∷ es) h = elim (Bool-cases (key_eq k j)) [
  | inl its ↦
      let none_more = no_addition k j.generation es (ground (arith, key_eq_iff k j)) h.1 in
      rw its (omega (arith, none_more))
  | inr other ↦ rw other (omega (arith, one_addition k j.generation es h.1))
]
one_addition k g (removed j ∷ es) h = omega (arith, one_addition k g es h)

-- Of changes that follow the registry, those of which the observer was told: no key is told as added more
-- than once, and none as removed more than once.
pub told_once :
    (k : Key) (t : Telling) (g : ℕ) (ks : List Key) (changes : List Event)
    → Observed 0 [] changes g ks
    → Shuffle changes (everything t)
    → (additions k t.told ≤ 1) × (removals k t.told ≤ 1)
unfolding additions removals occurrences
told_once k t g ks changes o s =
    let once = one_addition k 0 changes (Observed-Rises o) in
    let even = balance k o in
    (
      omega (
        arith,
        once,
        Shuffle-sum_by (is_added k) s,
        sum_by-append (is_added k) t.told (all_due t.due),
      ),
      omega (
        arith,
        once,
        even,
        Shuffle-sum_by (is_removed k) s,
        sum_by-append (is_removed k) t.told (all_due t.due),
      ),
    )

-- When the map is empty and the observer was told of every change, it was told of the end of each key as
-- often as of its beginning, and that is at most once.
pub told_evenly :
    (k : Key) (g : ℕ) (changes told : List Event)
    → Observed 0 [] changes g []
    → Shuffle changes told
    → (additions k told ≡ removals k told) × (additions k told ≤ 1)
unfolding additions removals occurrences
told_evenly k g changes told o s =
    let once = one_addition k 0 changes (Observed-Rises o) in
    let even = balance k o in
    (
      omega (arith, even, Shuffle-sum_by (is_removed k) s, Shuffle-sum_by (is_added k) s),
      omega (arith, once, Shuffle-sum_by (is_added k) s),
    )
