-- ===== src/Prelude/Shuffles.antt =====
-- Lists that hold the same members in another order, as a relation that can be matched.
use Prim.Native.Nat.{ℕ}
use mathlib.Core.Path.{◌≡◌, refl, sym}
use mathlib.Core.List.{List, [], ◌∷◌, ◌++◌, map, append-nil}
use native.Mathlib.Omega.{arith}
use sysc_tray.Prelude.Lists.{length, All, sum_by, Fresh, Distinct}

pub data Shuffle {ℓ} {A : Type ℓ} : List A → List A → Type ℓ where
  nil : Shuffle [] []
  cons : (x : A) {xs ys : List A} → Shuffle xs ys → Shuffle (x ∷ xs) (x ∷ ys)
  swap : (x y : A) (xs : List A) → Shuffle (x ∷ y ∷ xs) (y ∷ x ∷ xs)
  trans : {xs ys zs : List A} → Shuffle xs ys → Shuffle ys zs → Shuffle xs zs

module _ {ℓ} {A : Type ℓ} where
  pub Shuffle-refl : (xs : List A) → Shuffle xs xs
  Shuffle-refl [] = nil
  Shuffle-refl (x ∷ xs) = cons x (Shuffle-refl xs)

  pub Shuffle-sym : {xs ys : List A} → Shuffle xs ys → Shuffle ys xs
  Shuffle-sym nil = nil
  Shuffle-sym (cons x s) = cons x (Shuffle-sym s)
  Shuffle-sym (swap x y xs) = swap y x xs
  Shuffle-sym (trans s t) = trans (Shuffle-sym t) (Shuffle-sym s)

  pub Shuffle-append_left :
      (zs : List A) {xs ys : List A} → Shuffle xs ys → Shuffle (zs ++ xs) (zs ++ ys)
  Shuffle-append_left [] s = s
  Shuffle-append_left (z ∷ zs) s = cons z (Shuffle-append_left zs s)

  pub Shuffle-append_right :
      (zs : List A) {xs ys : List A} → Shuffle xs ys → Shuffle (xs ++ zs) (ys ++ zs)
  Shuffle-append_right zs nil = Shuffle-refl zs
  Shuffle-append_right zs (cons x s) = cons x (Shuffle-append_right zs s)
  Shuffle-append_right zs (swap x y xs) = swap x y (xs ++ zs)
  Shuffle-append_right zs (trans s t) =
      trans (Shuffle-append_right zs s) (Shuffle-append_right zs t)

  pub Shuffle-middle : (x : A) (xs ys : List A) → Shuffle (x ∷ xs ++ ys) (xs ++ x ∷ ys)
  Shuffle-middle x [] ys = Shuffle-refl (x ∷ ys)
  Shuffle-middle x (y ∷ xs) ys = trans (swap x y (xs ++ ys)) (cons y (Shuffle-middle x xs ys))

  pub Shuffle-append_comm : (xs ys : List A) → Shuffle (xs ++ ys) (ys ++ xs)
  Shuffle-append_comm [] ys = rw (append-nil ys) (Shuffle-refl ys)
  Shuffle-append_comm (x ∷ xs) ys =
      trans (cons x (Shuffle-append_comm xs ys)) (Shuffle-middle x ys xs)

  pub Shuffle-length : {xs ys : List A} → Shuffle xs ys → length xs ≡ length ys
  Shuffle-length nil = refl
  Shuffle-length (cons x s) = omega (arith, Shuffle-length s)
  Shuffle-length (swap x y xs) = refl
  Shuffle-length (trans s t) = omega (arith, Shuffle-length s, Shuffle-length t)

  pub Shuffle-sum_by : (f : A → ℕ) {xs ys : List A} → Shuffle xs ys → sum_by f xs ≡ sum_by f ys
  Shuffle-sum_by f nil = refl
  Shuffle-sum_by f (cons x s) = omega (arith, Shuffle-sum_by f s)
  Shuffle-sum_by f (swap x y xs) = omega arith
  Shuffle-sum_by f (trans s t) = omega (arith, Shuffle-sum_by f s, Shuffle-sum_by f t)

  pub Shuffle-All {κ} : (P : A → Type κ) {xs ys : List A} → Shuffle xs ys → All P xs → All P ys
  Shuffle-All P nil h = tt
  Shuffle-All P (cons x s) h = (h.0, Shuffle-All P s h.1)
  Shuffle-All P (swap x y xs) h = (h.1.0, (h.0, h.1.1))
  Shuffle-All P (trans s t) h = Shuffle-All P t (Shuffle-All P s h)

  pub Shuffle-Fresh : (a : A) {xs ys : List A} → Shuffle xs ys → Fresh a xs → Fresh a ys
  Shuffle-Fresh a nil h = tt
  Shuffle-Fresh a (cons x s) h = (h.0, Shuffle-Fresh a s h.1)
  Shuffle-Fresh a (swap x y xs) h = (h.1.0, (h.0, h.1.1))
  Shuffle-Fresh a (trans s t) h = Shuffle-Fresh a t (Shuffle-Fresh a s h)

  pub Shuffle-Distinct : {xs ys : List A} → Shuffle xs ys → Distinct xs → Distinct ys
  Shuffle-Distinct nil h = tt
  Shuffle-Distinct (cons x s) h = (Shuffle-Fresh x s h.0, Shuffle-Distinct s h.1)
  Shuffle-Distinct (swap x y xs) h = ((λ e. h.0.0 (sym e), h.1.0), (h.0.1, h.1.1))
  Shuffle-Distinct (trans s t) h = Shuffle-Distinct t (Shuffle-Distinct s h)

pub Shuffle-map {ℓ κ} :
    {A : Type ℓ} {B : Type κ} (f : A → B) {xs ys : List A}
    → Shuffle xs ys
    → Shuffle (map f xs) (map f ys)
Shuffle-map f nil = nil
Shuffle-map f (cons x s) = cons (f x) (Shuffle-map f s)
Shuffle-map f (swap x y xs) = swap (f x) (f y) (map f xs)
Shuffle-map f (trans s t) = trans (Shuffle-map f s) (Shuffle-map f t)
