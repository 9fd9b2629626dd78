-- ===== src/Utf8/Clamp.antt =====
-- `clamp` of internal/item/model.go, the same function as `clamp` of internal/menu/model.go, and what
-- it uses of Go's standard library: strings.ToValidUTF8 with no replacement, and utf8.RuneStart.
use sysc_tray.Prelude.{
  ℕ, zero, suc, ◌<◌, ◌≤◌, ◌≡◌, refl, Bool, true, false, ◌&&◌, ◌||◌, [], ◌∷◌, ◌++◌, Text, arith, ltb,
  leb, if◌then◌else◌, length, take, length-take, Bool-cases, inl, inr, ◌⊎◌,
}
use sysc_tray.Utf8.{lead, valid_from, valid_string}

-- Whether `need` continuation bytes come next, the first of them within `lo` and `hi`.
continues : ℕ → ℕ → ℕ → Text → Bool
continues zero lo hi s = true
continues (suc n) lo hi [] = false
continues (suc n) lo hi (b ∷ s) =
    let rest = continues n 128 191 s in if leb lo b && leb b hi then rest else false

-- `k` bytes of a rune are still to be kept; a byte that begins no rune is left out.
to_valid_from : ℕ → Text → Text
unfolding continues lead
to_valid_from k [] = []
to_valid_from (suc k) (b ∷ s) = b ∷ to_valid_from k s
to_valid_from zero (b ∷ s) =
    let kept = b ∷ to_valid_from (lead b).need s in
    let dropped = to_valid_from 0 s in
    if continues (lead b).need (lead b).lo (lead b).hi s then kept else dropped

-- strings.ToValidUTF8(s, "")
pub to_valid : Text → Text
unfolding to_valid_from
to_valid s = to_valid_from 0 s

-- Whether the byte at an index begins a rune: utf8.RuneStart(s[n]), for an index within the text.
rune_start_at : ℕ → Text → Bool
rune_start_at n [] = true
rune_start_at zero (b ∷ s) = ltb b 128 || ltb 191 b
rune_start_at (suc n) (b ∷ s) = rune_start_at n s

-- `for cut > 0 && !utf8.RuneStart(value[cut]) { cut-- }`
cut_back : Text → ℕ → ℕ
unfolding rune_start_at
cut_back s zero = zero
cut_back s (suc n) = let rest = cut_back s n in if rune_start_at (suc n) s then suc n else rest

shorten : Text → ℕ → Text
unfolding cut_back
shorten s limit = if leb (length s) limit then s else take (cut_back s limit) s

unfoldable pub clamp : Text → ℕ → Text
unfolding to_valid shorten
clamp value limit = shorten (if valid_string value then value else to_valid value) limit

to_valid_from-valid :
    (n lo hi : ℕ) (s : Text)
    → continues n lo hi s ≡ true
    → valid_from n lo hi (to_valid_from n s) ≡ true
unfolding continues to_valid_from valid_from
to_valid_from-valid zero lo hi [] h = refl
to_valid_from-valid (suc n) lo hi [] h = ground arith
to_valid_from-valid (suc n) lo hi (b ∷ s) h = ground (arith, to_valid_from-valid n 128 191 s)
to_valid_from-valid zero lo hi (b ∷ s) h =
    elim (Bool-cases (continues (lead b).need (lead b).lo (lead b).hi s)) [
      | inl good ↦ rw good (to_valid_from-valid (lead b).need (lead b).lo (lead b).hi s good)
      | inr bad ↦ rw bad (to_valid_from-valid zero lo hi s refl)
    ]

-- No byte within the bounds begins a rune.
abbrev Narrow : ℕ → ℕ → Type 0
Narrow lo hi = (128 ≤ lo × hi ≤ 191) ⊎ (hi < lo)

lead-Narrow : (b : ℕ) → Narrow (lead b).lo (lead b).hi
unfolding lead
lead-Narrow b = ground arith

-- A valid text that is cut in front of the first byte of a rune stays valid.
take-valid :
    (n lo hi : ℕ) (s : Text) (k : ℕ)
    → valid_from n lo hi s ≡ true
    → Narrow lo hi
    → k < length s
    → rune_start_at k s ≡ true
    → valid_from n lo hi (take k s) ≡ true
unfolding valid_from rune_start_at take
take-valid n lo hi [] k v w lt r = absurd (omega arith)
take-valid zero lo hi (b ∷ s) zero v w lt r = refl
take-valid (suc n) lo hi (b ∷ s) zero v w lt r = ground arith
take-valid zero lo hi (b ∷ s) (suc k) v w lt r =
    take-valid (lead b).need (lead b).lo (lead b).hi s k v (lead-Narrow b) (omega arith) r
take-valid (suc n) lo hi (b ∷ s) (suc k) v w lt r = ground (arith, take-valid n 128 191 s k)

cut_back_bounds : (s : Text) (n : ℕ) → cut_back s n ≤ n
unfolding cut_back
cut_back_bounds s zero = omega arith
cut_back_bounds s (suc n) = ground (arith, cut_back_bounds s n)

cut_back-start : (s : Text) (n : ℕ) → (cut_back s n ≡ 0) ⊎ (rune_start_at (cut_back s n) s ≡ true)
unfolding cut_back
cut_back-start s zero = inl refl
cut_back-start s (suc n) = ground (arith, cut_back-start s n)

to_valid-valid : (s : Text) → valid_string (to_valid s) ≡ true
unfolding to_valid valid_string
to_valid-valid s = to_valid_from-valid 0 128 191 s refl

take_cut-valid :
    (s : Text) (n : ℕ)
    → valid_string s ≡ true
    → n < length s
    → valid_string (take (cut_back s n) s) ≡ true
unfolding valid_string
take_cut-valid s n v lt = elim (cut_back-start s n) [
  | inl first ↦ rw first (unfold take valid_from in refl)
  | inr start ↦
      take-valid 0 128 191 s (cut_back s n) v (inl (omega arith, omega arith))
        (omega (arith, cut_back_bounds s n)) start
]

shorten_lem :
    (s : Text) (limit : ℕ)
    → valid_string s ≡ true
    → (valid_string (shorten s limit) ≡ true) × (length (shorten s limit) ≤ limit)
unfolding shorten
shorten_lem s limit v =
    ground
      (arith, take_cut-valid s limit, cut_back_bounds s limit, length-take (cut_back s limit) s)

-- Whatever an application sends, the clamped text is well-formed UTF-8 within the limit.
pub clamp_valid :
    (value : Text) (limit : ℕ)
    → (valid_string (clamp value limit) ≡ true) × (length (clamp value limit) ≤ limit)
unfolding clamp
clamp_valid value limit = elim (Bool-cases (valid_string value)) [
  | inl good ↦ rw good (shorten_lem value limit good)
  | inr bad ↦ rw bad (shorten_lem (to_valid value) limit (to_valid-valid value))
]

-- A text that is valid and within the limit is left as it is.
pub clamp_short :
    (value : Text) (limit : ℕ)
    → valid_string value ≡ true
    → length value ≤ limit
    → clamp value limit ≡ value
unfolding clamp shorten
clamp_short value limit v h = ground arith

valid_from-append :
    (n lo hi : ℕ) (s t : Text)
    → valid_from n lo hi s ≡ true
    → valid_from 0 128 191 t ≡ true
    → valid_from n lo hi (s ++ t) ≡ true
unfolding valid_from
valid_from-append zero lo hi [] [] v w = refl
valid_from-append zero lo hi [] (c ∷ t) v w = w
valid_from-append (suc n) lo hi [] t v w = ground arith
valid_from-append zero lo hi (b ∷ s) t v w =
    valid_from-append (lead b).need (lead b).lo (lead b).hi s t v w
valid_from-append (suc n) lo hi (b ∷ s) t v w = elim (Bool-cases (leb lo b && leb b hi)) [
  | inl within ↦ rw within (valid_from-append n 128 191 s t (rw within at v) w)
  | inr outside ↦ cc (rw outside at v)
]

pub valid_string-append :
    (s t : Text) → valid_string s ≡ true → valid_string t ≡ true → valid_string (s ++ t) ≡ true
unfolding valid_string
valid_string-append s t v w = valid_from-append 0 128 191 s t v w
