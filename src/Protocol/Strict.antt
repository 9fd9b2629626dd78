-- ===== src/Protocol/Strict.antt =====
-- protocol/frame.go: `DecodeStrict`, with the scan for object keys that occur twice. A decoder of
-- encoding/json is the list of the tokens that are still to come from it, where `malformed` stands for
-- text that is not JSON; commas and colons are no tokens. What decodes a value is a parameter.
pub mod Trees
pub mod Keys
pub mod Accepted
use sysc_tray.Prelude.{
  ℕ, zero, suc, ◌+◌, ◌*◌, Bool, true, false, List, [], ◌∷◌, Option, none, some, if◌then◌else◌,
  length, Text, text_eq, contains, Result, ok, err,
}
use sysc_tray.Utf8.{valid_string}

-- `json.Token`; a scalar is a number, a truth value or null.
pub data Token : Type 0 where
  open_object close_object open_array close_array : Token
  text : Text → Token
  scalar malformed : Token

abbrev pub Decoder : Type 0
Decoder = List Token

pub data StrictError : Type 0 where
  end_of_input syntax_error key_not_text duplicate_key unexpected_delimiter : StrictError
  not_utf8 trailing_value trailing_text decode_failed : StrictError

-- What a scan leaves of the decoder.
pub data Scan : Type 0 where
  scanned : Decoder → Scan
  failed : StrictError → Scan
  out_of_fuel : Scan

-- `if err := …; err != nil { return err }`, then the rest.
abbrev pub and_then : Scan → (Decoder → Scan) → Scan
and_then (scanned d) f = f d
and_then (failed e) f = failed e
and_then out_of_fuel f = out_of_fuel

-- `_, err = dec.Token(); return err`
pub skip_token : Decoder → Scan
skip_token [] = failed end_of_input
skip_token (malformed ∷ d) = failed syntax_error
skip_token (t ∷ d) = scanned d

-- `dec.More()`
pub more : Decoder → Bool
more [] = false
more (close_object ∷ d) = false
more (close_array ∷ d) = false
more (t ∷ d) = true

-- The key of a field, which `seen` must not have, and then what follows it.
abbrev pub read_key : (Text → Decoder → Scan) → List Text → Decoder → Scan
read_key f seen [] = failed end_of_input
read_key f seen (malformed ∷ d) = failed syntax_error
read_key f seen (text k ∷ d) =
    let rest = f k d in if contains text_eq k seen then failed duplicate_key else rest
read_key f seen (t ∷ d) = failed key_not_text

-- `scanJSONValue`, and the loops in it. Each call costs a unit of fuel.
unfoldable mutual
  unfolding skip_token more

  pub scan_value : ℕ → Decoder → Scan
  scan_value zero d = out_of_fuel
  scan_value (suc f) [] = failed end_of_input
  scan_value (suc f) (malformed ∷ d) = failed syntax_error
  scan_value (suc f) (text t ∷ d) = scanned d
  scan_value (suc f) (scalar ∷ d) = scanned d
  scan_value (suc f) (open_object ∷ d) = scan_fields f [] d
  scan_value (suc f) (open_array ∷ d) = scan_elements f d
  scan_value (suc f) (t ∷ d) = failed unexpected_delimiter

  pub scan_fields : ℕ → List Text → Decoder → Scan
  scan_fields zero seen d = out_of_fuel
  scan_fields (suc f) seen d =
      let field =
        read_key (λ k rest. and_then (scan_value f rest) (λ rest'. scan_fields f (k ∷ seen) rest'))
          seen d in
      if more d then field else skip_token d

  pub scan_elements : ℕ → Decoder → Scan
  scan_elements zero d = out_of_fuel
  scan_elements (suc f) d =
      let element = and_then (scan_value f d) (λ rest. scan_elements f rest) in
      if more d then element else skip_token d

-- `requireEOF`
pub require_eof : Decoder → Result StrictError (Unit {0})
require_eof [] = ok tt
require_eof (malformed ∷ d) = err trailing_text
require_eof (t ∷ d) = err trailing_value

-- The fuel: two calls for each token, and one more.
abbrev pub scan_rounds : Decoder → ℕ
scan_rounds d = 2 * length d + 2

-- `none` means that the fuel ran out.
pub scan_result : Scan → Option (Result StrictError (Unit {0}))
unfolding require_eof
scan_result (scanned d) = some (require_eof d)
scan_result (failed e) = some (err e)
scan_result out_of_fuel = none

-- `rejectDuplicateKeys`
pub reject_duplicate_keys : Decoder → Option (Result StrictError (Unit {0}))
unfolding scan_result scan_value
reject_duplicate_keys d = scan_result (scan_value (scan_rounds d) d)

-- `tokens` is what the decoder of encoding/json makes of a text. `decode` is its method Decode with
-- DisallowUnknownFields, at some type: a value and the tokens that are still to come.
module _ {A : Type 0} (tokens : Text → Decoder) (decode : Text → Option (A × Decoder)) where
  finish : A → Result StrictError (Unit {0}) → Result StrictError A
  finish a (ok u) = ok a
  finish a (err e) = err e

  decoded : Option (A × Decoder) → Result StrictError A
  unfolding finish require_eof
  decoded none = err decode_failed
  decoded (some (a, d)) = finish a (require_eof d)

  decode_unique : Text → Option (Result StrictError (Unit {0})) → Option (Result StrictError A)
  unfolding decoded
  decode_unique t none = none
  decode_unique t (some (err e)) = some (err e)
  decode_unique t (some (ok u)) = some (decoded (decode t))

  -- `DecodeStrict`
  unfoldable pub decode_strict : Text → Option (Result StrictError A)
  unfolding decode_unique reject_duplicate_keys
  decode_strict t =
      if valid_string t
      then decode_unique t (reject_duplicate_keys (tokens t))
      else some (err not_utf8)
