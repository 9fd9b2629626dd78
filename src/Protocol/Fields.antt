-- ===== src/Protocol/Fields.antt =====
-- protocol/validate.go: the checks on single fields, and the key of an item.
use sysc_tray.Prelude.{
  ℕ, ◌<◌, ◌≤◌, ◌≡◌, refl, ◌≢◌, ◌↔◌, Bool, true, false, not, ◌&&◌, ◌||◌, [], ◌∷◌, arith, ltb, leb,
  ◌==◌, ok, ◌>>◌, require, Text, text_eq, text_eq_iff, has_prefix, length, ℤ, abs,
}
use sysc_tray.Utf8.{valid_string}
use sysc_tray.Protocol.Types.{
  ItemKey, Category, Status, ToggleType, ScrollOrientation, ErrorCode, max_text_bytes,
  max_coordinate,
}
use sysc_tray.Protocol.Errors.{
  Check, text_not_utf8, text_invalid_length, owner_not_unique, path_not_absolute, zero_generation,
  coordinate_out_of_range,
}

abbrev is_empty : Text → Bool
is_empty [] = true
is_empty (c ∷ s) = false

unfoldable pub validate_text : Text → ℕ → Bool → Check
validate_text value limit empty_ok =
    require (valid_string value) text_not_utf8
    >> require (not ((not empty_ok && is_empty value) || ltb limit (length value)))
        text_invalid_length

-- `strings.HasPrefix(s, "/")`
abbrev pub is_absolute : Text → Bool
is_absolute s = has_prefix s (b'/' ∷ [])

pub validate_key : ItemKey → Check
validate_key k =
    validate_text k.owner max_text_bytes false
    >> require (not (not (has_prefix k.owner (b':' ∷ [])) || ltb (length k.owner) 2))
        owner_not_unique
    >> validate_text k.object_path max_text_bytes false
    >> require (is_absolute k.object_path) path_not_absolute
    >> require (not (k.generation == 0)) zero_generation

unfoldable pub validate_coordinate : ℤ → Check
validate_coordinate value = require (leb (abs value) max_coordinate) coordinate_out_of_range

unfoldable pub category_valid : Category → Bool
category_valid (Category.other t) = false
category_valid c = true

unfoldable pub status_valid : Status → Bool
status_valid (Status.other t) = false
status_valid s = true

unfoldable pub toggle_valid : ToggleType → Bool
toggle_valid (ToggleType.other t) = false
toggle_valid t = true

unfoldable pub orientation_valid : ScrollOrientation → Bool
orientation_valid ScrollOrientation.vertical = true
orientation_valid ScrollOrientation.horizontal = true
orientation_valid o = false

unfoldable pub error_code_valid : ErrorCode → Bool
error_code_valid (ErrorCode.other t) = false
error_code_valid c = true

-- A text that the protocol carries: well-formed UTF-8 within its limit.
pub record IsText (limit : ℕ) (t : Text) : Type 0 where
  pub utf8 : valid_string t ≡ true
  pub short : length t ≤ limit

pub IsText-nil : (limit : ℕ) → IsText limit []
unfolding valid_string
IsText-nil limit = record { utf8 = refl; short = omega arith }

pub validate_text-optional :
    (t : Text) (limit : ℕ) → (validate_text t limit true ≡ ok tt) ↔ IsText limit t
unfolding validate_text
validate_text-optional t limit = ground arith

pub validate_text-required :
    (t : Text) (limit : ℕ) → (validate_text t limit false ≡ ok tt) ↔ (IsText limit t × (t ≢ []))
unfolding validate_text
validate_text-required t limit = ground arith

-- What `ItemKey.Validate` asks for: a unique bus name, an absolute path, a generation.
pub record IsKey (k : ItemKey) : Type 0 where
  pub owner_text : IsText max_text_bytes k.owner
  pub owner_prefix : has_prefix k.owner (b':' ∷ []) ≡ true
  pub owner_long : 2 ≤ length k.owner
  pub path_text : IsText max_text_bytes k.object_path
  pub path_absolute : is_absolute k.object_path ≡ true
  pub generation_set : 0 < k.generation

-- A key passes exactly when its owner is a unique bus name and its path an absolute path, both valid
-- texts, and its generation is not zero.
pub validate_key_iff : (k : ItemKey) → (validate_key k ≡ ok tt) ↔ IsKey k
unfolding validate_key has_prefix
validate_key_iff k = ground (
  arith,
  validate_text-required k.owner max_text_bytes,
  validate_text-required k.object_path max_text_bytes,
)

-- `==` on keys.
unfoldable pub key_eq : ItemKey → ItemKey → Bool
key_eq a b =
    text_eq a.owner b.owner
    && (text_eq a.object_path b.object_path && (a.generation == b.generation))

pub key_eq_iff : (a b : ItemKey) → (key_eq a b ≡ true) ↔ (a ≡ b)
unfolding key_eq
key_eq_iff a b =
    ground (arith, text_eq_iff a.owner b.owner, text_eq_iff a.object_path b.object_path)
