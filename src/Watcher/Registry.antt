-- ===== src/Watcher/Registry.antt =====
-- internal/watcher: the map of the items by address, which `Server` and `client` both keep, and what
-- the observer is told. The map is a list of its keys, whose owner and path are the address; the
-- order stands for that of an iteration over the map, which Go leaves open.
use sysc_tray.Prelude.{
  ℕ, suc, ◌≡◌, ◌≢◌, ◌≤◌, ◌<◌, refl, sym, subst, ap, ◌∙◌, true, List, [], ◌∷◌, ◌++◌, Option, none,
  some, arith, if◌then◌else◌, text_eq_iff, All, ◌↔◌, Bool-cases, inl, inr,
}
use sysc_tray.Watcher.Address.{Key, Address, address_eq}

abbrev pub address_of : Key → Address
address_of k = record { owner = k.owner; object_path = k.object_path }

unfoldable pub find : Address → List Key → Option Key
unfolding address_eq
find a [] = none
find a (k ∷ ks) = if address_eq (address_of k) a then some k else find a ks

unfoldable pub delete : Address → List Key → List Key
unfolding address_eq
delete a [] = []
delete a (k ∷ ks) = let rest = delete a ks in if address_eq (address_of k) a then rest else k ∷ rest

pub data Event : Type 0 where
  added removed : Key → Event

-- What the observer may be told of a registry: a new item has an address that is not registered and
-- the next generation, and an item that goes is in the registry.
pub data Observed : ℕ → List Key → List Event → ℕ → List Key → Type 0 where
  stop : {g : ℕ} → {ks : List Key} → Observed g ks [] g ks
  add :
      {g g' : ℕ}
      → {ks ks' : List Key} → {es : List Event} → (k : Key)
      → All (λ j. address_of j ≢ address_of k) ks
      → k.generation ≡ suc g
      → Observed (suc g) (k ∷ ks) es g' ks'
      → Observed g ks (added k ∷ es) g' ks'
  remove :
      {g g' : ℕ}
      → {ks ks' : List Key} → {es : List Event} → (k : Key) → (xs ys : List Key) → ks ≡ xs ++ k ∷ ys
      → Observed g (xs ++ ys) es g' ks'
      → Observed g ks (removed k ∷ es) g' ks'

pub Observed-append :
    {g g' g'' : ℕ} {ks ks' ks'' : List Key} {es fs : List Event}
    → Observed g ks es g' ks'
    → Observed g' ks' fs g'' ks''
    → Observed g ks (es ++ fs) g'' ks''
Observed-append stop o = o
Observed-append (add k fresh next o) p = add k fresh next (Observed-append o p)
Observed-append (remove k xs ys e o) p = remove k xs ys e (Observed-append o p)

-- A new item with the next generation.
pub Observed-next :
    (g n : ℕ) (k : Key) (ks : List Key)
    → All (λ j. address_of j ≢ address_of k) ks
    → n ≡ suc g
    → k.generation ≡ n
    → Observed g ks (added k ∷ []) n (k ∷ ks)
Observed-next g n k ks fresh e same =
    subst (λ m. Observed g ks (added k ∷ []) m (k ∷ ks)) (sym e) (add k fresh (same ∙ e) stop)

-- Neither the address nor the generation of two keys is the same.
pub record Differ (k j : Key) : Type 0 where
  pub address : address_of j ≢ address_of k
  pub generation : k.generation ≢ j.generation

-- No address and no generation occurs twice, and the counter has reached every generation.
abbrev pub IsRegistry : ℕ → List Key → Type 0
IsRegistry g [] = Unit {0}
IsRegistry g (k ∷ ks) =
    (0 < k.generation) × (k.generation ≤ g) × All (Differ k) ks × IsRegistry g ks

pub address_eq_iff : (a b : Address) → (address_eq a b ≡ true) ↔ (a ≡ b)
unfolding address_eq
address_eq_iff a b =
    ground (arith, text_eq_iff a.owner b.owner, text_eq_iff a.object_path b.object_path)

pub find-none : (a : Address) (ks : List Key) → find a ks ≡ none → All (λ j. address_of j ≢ a) ks
unfolding find
find-none a [] h = tt
find-none a (k ∷ ks) h = ground (arith, find-none a ks, address_eq_iff (address_of k) a)

IsRegistry-suc : (g : ℕ) (ks : List Key) → IsRegistry g ks → IsRegistry (suc g) ks
IsRegistry-suc g [] h = tt
IsRegistry-suc g (k ∷ ks) h = (h.0, omega arith, h.2, IsRegistry-suc g ks h.3)

Differ-next :
    (g : ℕ) (k : Key) (ks : List Key)
    → k.generation ≡ suc g
    → IsRegistry g ks
    → All (λ j. address_of j ≢ address_of k) ks
    → All (Differ k) ks
Differ-next g k [] e h fresh = tt
Differ-next g k (j ∷ ks) e h fresh =
    (record { address = fresh.0; generation = omega arith }, Differ-next g k ks e h.3 fresh.1)

All-remove :
    (P : Key → Type 0) (k : Key) (xs ys : List Key) → All P (xs ++ k ∷ ys) → All P (xs ++ ys)
All-remove P k [] ys h = h.1
All-remove P k (x ∷ xs) ys h = (h.0, All-remove P k xs ys h.1)

IsRegistry-remove :
    (g : ℕ) (k : Key) (xs ys : List Key) → IsRegistry g (xs ++ k ∷ ys) → IsRegistry g (xs ++ ys)
IsRegistry-remove g k [] ys h = h.3
IsRegistry-remove g k (x ∷ xs) ys h =
    (h.0, h.1, All-remove (Differ x) k xs ys h.2, IsRegistry-remove g k xs ys h.3)

pub Observed-IsRegistry :
    {g g' : ℕ} {ks ks' : List Key} {es : List Event}
    → Observed g ks es g' ks'
    → IsRegistry g ks
    → IsRegistry g' ks'
Observed-IsRegistry stop h = h
Observed-IsRegistry {g} {ks = ks} (add k fresh next o) h =
    Observed-IsRegistry o
      (omega arith, omega arith, Differ-next g k ks next h fresh, IsRegistry-suc g ks h)
Observed-IsRegistry {g} (remove k xs ys e o) h =
    Observed-IsRegistry o (IsRegistry-remove g k xs ys (subst (IsRegistry g) e h))

pub find-some :
    (a : Address) (ks : List Key) (k : Key)
    → find a ks ≡ some k
    → (address_of k ≡ a) × (xs : List Key) × (ys : List Key) × (ks ≡ xs ++ k ∷ ys)
unfolding find
find-some a [] k h = ground arith
find-some a (j ∷ ks) k h = elim (Bool-cases (address_eq (address_of j) a)) [
  | inl same ↦ (ground (arith, address_eq_iff (address_of j) a), [], ks, ground arith)
  | inr other ↦
      let (e, xs, ys, split) = find-some a ks k (ground arith) in
      (e, j ∷ xs, ys, ap (λ r. j ∷ r) split)
]

pub delete-absent :
    (a : Address) (ks : List Key) → All (λ j. address_of j ≢ a) ks → delete a ks ≡ ks
unfolding delete
delete-absent a [] h = refl
delete-absent a (k ∷ ks) h = ground (arith, delete-absent a ks h.1, address_eq_iff (address_of k) a)

Differ-address :
    (k : Key) (ks : List Key) → All (Differ k) ks → All (λ j. address_of j ≢ address_of k) ks
Differ-address k [] h = tt
Differ-address k (j ∷ ks) h = (h.0.address, Differ-address k ks h.1)

All-middle : (P : Key → Type 0) (k : Key) (xs ys : List Key) → All P (xs ++ k ∷ ys) → P k
All-middle P k [] ys h = h.0
All-middle P k (x ∷ xs) ys h = All-middle P k xs ys h.1

-- The address of a key stands at one place of a registry.
pub delete-middle :
    (g : ℕ) (k : Key) (xs ys : List Key)
    → IsRegistry g (xs ++ k ∷ ys)
    → delete (address_of k) (xs ++ k ∷ ys) ≡ xs ++ ys
unfolding delete
delete-middle g k [] ys h = ground (
  arith,
  address_eq_iff (address_of k) (address_of k),
  delete-absent (address_of k) ys (Differ-address k ys h.2),
)
delete-middle g k (x ∷ xs) ys h =
    let apart = (All-middle (Differ x) k xs ys h.2).address in
    ground (arith, address_eq_iff (address_of x) (address_of k), delete-middle g k xs ys h.3)

pub delete-IsAbsent : (a : Address) (ks : List Key) → All (λ j. address_of j ≢ a) (delete a ks)
unfolding delete
delete-IsAbsent a [] = tt
delete-IsAbsent a (k ∷ ks) = ground (arith, delete-IsAbsent a ks, address_eq_iff (address_of k) a)

-- The generations of the items that are added go up from g on.
abbrev pub Rises : ℕ → List Event → Type 0
Rises g [] = Unit {0}
Rises g (added k ∷ es) = (g < k.generation) × Rises k.generation es
Rises g (removed k ∷ es) = Rises g es

pub Observed-Rises :
    {g g' : ℕ} {ks ks' : List Key} {es : List Event} → Observed g ks es g' ks' → Rises g es
Observed-Rises stop = tt
Observed-Rises {g} (add {es = es} k fresh next o) =
    (omega arith, subst (λ n. Rises n es) (sym next) (Observed-Rises o))
Observed-Rises (remove k xs ys e o) = Observed-Rises o
