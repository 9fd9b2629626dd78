-- ===== src/Protocol/Strict/Accepted.antt =====
-- protocol/frame.go: which texts `DecodeStrict` accepts, and what this means for the hello of a presenter
-- that internal/presenter/server.go reads with it.
use sysc_tray.Prelude.{
  ◌≡◌, ◌≢◌, ◌↔◌, refl, arith, true, [], ◌∷◌, ◌++◌, Option, none, some, Text, Result, ok, err,
}
use sysc_tray.Utf8.{valid_string}
use sysc_tray.Protocol.Strict.{
  Decoder, malformed, StrictError, require_eof, reject_duplicate_keys, decode_strict, decode_unique,
  decoded, finish,
}
use sysc_tray.Protocol.Strict.Trees.{Value, emit, Unique}
use sysc_tray.Protocol.Strict.Keys.{reject_duplicate_keys_iff, reject_duplicate_keys_ends}

abbrev Checked : Type 0
Checked = Option (Result StrictError (Unit {0}))

require_eof_iff : (d : Decoder) → (require_eof d ≡ ok tt) ↔ (d ≡ [])
unfolding require_eof
require_eof_iff [] = (λ h. refl, λ h. refl)
require_eof_iff (malformed ∷ d) = (λ h. cc, λ h. cc)
require_eof_iff (t ∷ d) = (λ h. cc, λ h. cc)

module _ {A : Type 0} (tokens : Text → Decoder) (decode : Text → Option (A × Decoder)) where
  finish_iff :
      (a b : A) (r : Result StrictError (Unit {0}))
      → (finish tokens decode b r ≡ ok a) ↔ ((b ≡ a) × (r ≡ ok tt))
  unfolding finish
  finish_iff a b (ok u) = ground arith
  finish_iff a b (err e) = ground arith

  decoded_iff :
      (a : A) (o : Option (A × Decoder)) → (decoded tokens decode o ≡ ok a) ↔ (o ≡ some (a, []))
  unfolding decoded
  decoded_iff a none = ground arith
  decoded_iff a (some (b, d)) = ground (arith, finish_iff a b (require_eof d), require_eof_iff d)

  decode_unique_iff :
      (a : A) (t : Text) (c : Checked)
      → (decode_unique tokens decode t c ≡ some (ok a))
        ↔ ((c ≡ some (ok tt)) × (decode t ≡ some (a, [])))
  unfolding decode_unique
  decode_unique_iff a t none = ground arith
  decode_unique_iff a t (some (err e)) = ground arith
  decode_unique_iff a t (some (ok u)) = ground (arith, decoded_iff a (decode t))

  decode_unique_ends : (t : Text) (c : Checked) → c ≢ none → decode_unique tokens decode t c ≢ none
  unfolding decode_unique
  decode_unique_ends t none h = absurd (h refl)
  decode_unique_ends t (some (err e)) h = cc
  decode_unique_ends t (some (ok u)) h = cc

  accepted_iff :
      (t : Text) (v : Value) (rest : Decoder) (a : A)
      → tokens t ≡ emit v ++ rest
      → (decode_strict tokens decode t ≡ some (ok a))
        ↔ ((valid_string t ≡ true) × Unique v × (rest ≡ []) × (decode t ≡ some (a, [])))
  unfolding decode_strict
  accepted_iff t v rest a lexed = rw lexed (
      ground (
        arith,
        reject_duplicate_keys_iff v rest,
        decode_unique_iff a t (reject_duplicate_keys (emit v ++ rest)),
      ))

  decode_strict_ends : (t : Text) → decode_strict tokens decode t ≢ none
  unfolding decode_strict
  decode_strict_ends t = ground (
    arith,
    decode_unique_ends t (reject_duplicate_keys (tokens t)),
    reject_duplicate_keys_ends (tokens t),
  )

  -- For a text whose tokens are a JSON value with anything behind it: `DecodeStrict` ends, and reads a value
  -- from it exactly when the text is UTF-8, no object in it has a key twice however deep it lies, nothing
  -- is behind it, and the decoder of its type reads that value to the end.
  pub decode_strict_iff :
      (t : Text) (v : Value) (rest : Decoder) (a : A)
      → tokens t ≡ emit v ++ rest
      → (decode_strict tokens decode t ≢ none)
        × ((decode_strict tokens decode t ≡ some (ok a))
            ↔ ((valid_string t ≡ true) × Unique v × (rest ≡ []) × (decode t ≡ some (a, []))))
  decode_strict_iff t v rest a lexed = (decode_strict_ends t, accepted_iff t v rest a lexed)
