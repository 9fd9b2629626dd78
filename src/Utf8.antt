-- ===== src/Utf8.antt =====
-- unicode/utf8 of Go's standard library, as far as the source uses it: the automaton that accepts
-- the well-formed byte sequences (no overlong forms, no surrogates, nothing above U+10FFFF).
pub mod Clamp
use sysc_tray.Prelude.{
  ℕ, zero, suc, Bool, true, false, ◌&&◌, [], ◌∷◌, Text, ltb, leb, if◌then◌else◌,
}

-- What must follow: `need` continuation bytes, the first of them within `lo` and `hi`.
record Expect : Type 0 where
  need : ℕ
  lo : ℕ
  hi : ℕ

abbrev at_rune : Expect
at_rune = record { need = 0; lo = 128; hi = 191 }

abbrev bad_lead : Expect
bad_lead = record { need = 1; lo = 1; hi = 0 }

-- The first byte of a rune.
lead : ℕ → Expect
lead b =
    if ltb b 128
    then at_rune
    else if ltb b 194
    then bad_lead
    else if ltb b 224
    then record { need = 1; lo = 128; hi = 191 }
    else if ltb b 225
    then record { need = 2; lo = 160; hi = 191 }
    else if ltb b 237
    then record { need = 2; lo = 128; hi = 191 }
    else if ltb b 238
    then record { need = 2; lo = 128; hi = 159 }
    else if ltb b 240
    then record { need = 2; lo = 128; hi = 191 }
    else if ltb b 241
    then record { need = 3; lo = 144; hi = 191 }
    else if ltb b 244
    then record { need = 3; lo = 128; hi = 191 }
    else if ltb b 245
    then record { need = 3; lo = 128; hi = 143 }
    else bad_lead

valid_from : ℕ → ℕ → ℕ → Text → Bool
unfolding lead
valid_from zero lo hi [] = true
valid_from (suc n) lo hi [] = false
valid_from zero lo hi (b ∷ bs) = let e = lead b in valid_from e.need e.lo e.hi bs
valid_from (suc n) lo hi (b ∷ bs) =
    let rest = valid_from n 128 191 bs in if leb lo b && leb b hi then rest else false

-- utf8.ValidString, utf8.Valid
unfoldable pub valid_string : Text → Bool
unfolding valid_from
valid_string s = valid_from 0 128 191 s
