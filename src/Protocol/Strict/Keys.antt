-- ===== src/Protocol/Strict/Keys.antt =====
-- protocol/frame.go: what the scan for repeated keys says of the tokens of a JSON value, whatever
-- follows it, and that it ends on any tokens.
use mathlib.Core.List.{append_assoc}
use sysc_tray.Prelude.{
  ℕ, zero, suc, ◌+◌, ◌*◌, ◌≤◌, ◌<◌, ◌≡◌, ◌≢◌, ◌↔◌, refl, arith, Bool, true, false, not, ◌&&◌, List,
  [], ◌∷◌, ◌++◌, none, some, if◌then◌else◌, length, length-append, Text, text_eq, text_eq_iff,
  contains, contains_iff_Fresh, Distinct, Apart, Apart-nil, Apart-cons, ok,
}
use sysc_tray.Protocol.Strict.{
  Decoder, open_object, open_array, text, scalar, malformed, Scan, scanned, failed, out_of_fuel,
  and_then, skip_token, more, read_key, scan_value, scan_fields, scan_elements, duplicate_key,
  reject_duplicate_keys, scan_result, require_eof,
}
use sysc_tray.Protocol.Strict.Trees.{
  Value, Elements, Fields, string, atom, array, object, no_elements, element, no_fields, field,
  emit, emit_elements, emit_fields, keys, Unique, UniqueElements, UniqueFields,
}

-- The scan ended, and has left fewer tokens than `n`.
abbrev Leaves : ℕ → Scan → Type 0
Leaves n (scanned d) = length d < n
Leaves n (failed e) = Unit
Leaves n out_of_fuel = ⊥

skip_token-Leaves : (d : Decoder) → Leaves (length d) (skip_token d)
unfolding skip_token
skip_token-Leaves [] = tt
skip_token-Leaves (malformed ∷ d) = tt
skip_token-Leaves (t ∷ d) = omega arith

and_then-Leaves :
    (n m : ℕ) (s : Scan) (f : Decoder → Scan)
    → Leaves n s
    → ((d : Decoder) → length d < n → Leaves m (f d))
    → Leaves m (and_then s f)
and_then-Leaves n m (scanned d) f h k = k d h
and_then-Leaves n m (failed e) f h k = tt
and_then-Leaves n m out_of_fuel f h k = absurd h

Leaves-mono : (n m : ℕ) (s : Scan) → n ≤ m → Leaves n s → Leaves m s
Leaves-mono n m (scanned d) le h = omega arith
Leaves-mono n m (failed e) le h = tt
Leaves-mono n m out_of_fuel le h = h

if-Leaves :
    (n : ℕ) (b : Bool) (s t : Scan) → Leaves n s → Leaves n t → Leaves n (if b then s else t)
if-Leaves n true s t hs ht = hs
if-Leaves n false s t hs ht = ht

read_key-Leaves :
    (f : Text → Decoder → Scan) (seen : List Text) (d : Decoder)
    → ((k : Text) (rest : Decoder) → length rest < length d → Leaves (length d) (f k rest))
    → Leaves (length d) (read_key f seen d)
read_key-Leaves f seen [] h = tt
read_key-Leaves f seen (malformed ∷ d) h = tt
read_key-Leaves f seen (text k ∷ d) h =
    if-Leaves _ (contains text_eq k seen) (failed duplicate_key) (f k d) tt (h k d (omega arith))
read_key-Leaves f seen (t ∷ d) h = tt

mutual
  unfolding scan_value

  value_ends : (f : ℕ) (d : Decoder) → 2 * length d < f → Leaves (length d) (scan_value f d)
  value_ends zero d h = absurd (omega arith)
  value_ends (suc f) [] h = tt
  value_ends (suc f) (malformed ∷ d) h = tt
  value_ends (suc f) (text t ∷ d) h = omega arith
  value_ends (suc f) (scalar ∷ d) h = omega arith
  value_ends (suc f) (open_object ∷ d) h =
      Leaves-mono (length d) _ (scan_fields f [] d) (omega arith) (fields_end f [] d (omega arith))
  value_ends (suc f) (open_array ∷ d) h =
      Leaves-mono (length d) _ (scan_elements f d) (omega arith) (elements_end f d (omega arith))
  value_ends (suc f) (t ∷ d) h = tt

  fields_end :
      (f : ℕ) (seen : List Text) (d : Decoder)
      → 2 * length d + 1 < f
      → Leaves (length d) (scan_fields f seen d)
  fields_end zero seen d h = absurd (omega arith)
  fields_end (suc f) seen d h =
      if-Leaves _ (more d) _ (skip_token d)
        (read_key-Leaves _ seen d (λ k rest shorter.
          and_then-Leaves (length rest) (length d) (scan_value f rest) _
            (value_ends f rest (omega arith))
            (λ rest' less.
              Leaves-mono (length rest') (length d) (scan_fields f (k ∷ seen) rest') (omega arith)
                (fields_end f (k ∷ seen) rest' (omega arith)))))
        (skip_token-Leaves d)

  elements_end :
      (f : ℕ) (d : Decoder) → 2 * length d + 1 < f → Leaves (length d) (scan_elements f d)
  elements_end zero d h = absurd (omega arith)
  elements_end (suc f) d h =
      if-Leaves _ (more d) _ (skip_token d)
        (and_then-Leaves (length d) (length d) (scan_value f d) _ (value_ends f d (omega arith))
          (λ rest less.
            Leaves-mono (length rest) (length d) (scan_elements f rest) (omega arith)
              (elements_end f rest (omega arith))))
        (skip_token-Leaves d)

result_ends : (n : ℕ) (s : Scan) → Leaves n s → scan_result s ≢ none
unfolding scan_result
result_ends n (scanned d) h = cc
result_ends n (failed e) h = cc
result_ends n out_of_fuel h = absurd h

-- The scan for repeated keys ends on any tokens, also those of a text that is broken off or is not JSON.
pub reject_duplicate_keys_ends : (d : Decoder) → reject_duplicate_keys d ≢ none
unfolding reject_duplicate_keys
reject_duplicate_keys_ends d =
    result_ends (length d) (scan_value _ d) (value_ends _ d (omega arith))

mutual
  unique : Value → Bool
  unique (string t) = true
  unique atom = true
  unique (array es) = unique_elements es
  unique (object fs) = unique_fields [] fs

  unique_elements : Elements → Bool
  unique_elements no_elements = true
  unique_elements (element v es) = unique v && unique_elements es

  unique_fields : List Text → Fields → Bool
  unique_fields seen no_fields = true
  unique_fields seen (field k v fs) =
      not (contains text_eq k seen) && (unique v && unique_fields (k ∷ seen) fs)

abbrev verdict : Bool → Decoder → Scan
verdict true rest = scanned rest
verdict false rest = failed duplicate_key

length-emit_pos : (v : Value) → 0 < length (emit v)
unfolding emit
length-emit_pos (string t) = omega arith
length-emit_pos _ = omega arith

more-emit : (v : Value) (rest : Decoder) → more (emit v ++ rest) ≡ true
unfolding emit more
more-emit (string t) rest = refl
more-emit _ rest = refl

-- What the scan finds when a value comes first.
abbrev ScansValue : Value → Type 0
ScansValue v =
    (rest : Decoder) (f : ℕ)
    → 2 * length (emit v) < f
    → scan_value f (emit v ++ rest) ≡ verdict (unique v) rest

abbrev ScansElements : Elements → Type 0
ScansElements es =
    (rest : Decoder) (f : ℕ)
    → 2 * length (emit_elements es) + 1 < f
    → scan_elements f (emit_elements es ++ rest) ≡ verdict (unique_elements es) rest

abbrev ScansFields : Fields → Type 0
ScansFields fs =
    (seen : List Text) (rest : Decoder) (f : ℕ)
    → 2 * length (emit_fields fs) + 1 < f
    → scan_fields f seen (emit_fields fs ++ rest) ≡ verdict (unique_fields seen fs) rest

-- Enough fuel is never none.
with_fuel {ℓ} :
    {least : ℕ} (Q : ℕ → Type ℓ)
    → ((rounds : ℕ) → least ≤ rounds → Q (suc rounds))
    → (fuel : ℕ) → least < fuel
    → Q fuel
with_fuel Q run zero enough = elim enough [ ]
with_fuel Q run (suc rounds) enough = run rounds (omega arith)

and_then-verdict :
    (u w : Bool) (rest rest' : Decoder) (f : Decoder → Scan)
    → f rest ≡ verdict w rest'
    → and_then (verdict u rest) f ≡ verdict (u && w) rest'
and_then-verdict true w rest rest' f h = h
and_then-verdict false w rest rest' f h = refl

seen-verdict :
    (b w : Bool) (rest : Decoder)
    → (if b then failed duplicate_key else verdict w rest) ≡ verdict (not b && w) rest
seen-verdict true w rest = refl
seen-verdict false w rest = refl

emitted : (v : Value) (n : Decoder) → length (emit v ++ n) ≡ length (emit v) + length n
emitted v n = length-append (emit v) n

scan_value-emit : (v : Value) → ScansValue v
unfolding scan_value emit unique skip_token more
scan_value-emit v = elim v as ScansValue ScansElements ScansFields [
  | array (es → ih) ↦ λ rest. with_fuel _ λ f h. ih rest f (omega arith)
  | object (fs → ih) ↦ λ rest. with_fuel _ λ f h. ih [] rest f (omega arith)
  | no_elements ↦ λ rest. with_fuel _ λ f h. refl
  | element (w → ih) (es → ihs) ↦ λ rest. with_fuel _ λ f h.
      rw
        (
          append_assoc (emit w) (emit_elements es) rest,
          more-emit w (emit_elements es ++ rest),
          ih (emit_elements es ++ rest) f (omega (arith, emitted w (emit_elements es))),
        )
        (and_then-verdict (unique w) (unique_elements es) (emit_elements es ++ rest) rest
          (λ d. scan_elements f d)
          (ihs rest f (omega (arith, emitted w (emit_elements es), length-emit_pos w))))
  | no_fields ↦ λ seen rest. with_fuel _ λ f h. refl
  | field k (w → ih) (fs → ihs) ↦ λ seen rest. with_fuel _ λ f h.
      rw
        (
          append_assoc (emit w) (emit_fields fs) rest,
          ih (emit_fields fs ++ rest) f (omega (arith, emitted w (emit_fields fs))),
        )
        (rw
          (and_then-verdict (unique w) (unique_fields (k ∷ seen) fs) (emit_fields fs ++ rest) rest
            (λ d. scan_fields f (k ∷ seen) d)
            (ihs (k ∷ seen) rest f (omega (arith, emitted w (emit_fields fs)))))
          (seen-verdict (contains text_eq k seen) (unique w && unique_fields (k ∷ seen) fs) rest))
  | _ ↦ λ rest. with_fuel _ λ f h. refl
]

-- The test finds what `Unique` says.
abbrev Decides : Value → Type 0
Decides v = (unique v ≡ true) ↔ Unique v

abbrev DecidesElements : Elements → Type 0
DecidesElements es = (unique_elements es ≡ true) ↔ UniqueElements es

abbrev DecidesFields : Fields → Type 0
DecidesFields fs =
    (seen : List Text)
    → (unique_fields seen fs ≡ true) ↔ (Apart seen (keys fs) × Distinct (keys fs) × UniqueFields fs)

field_iff :
    (k : Text) (seen ks : List Text)
    → ((contains text_eq k seen ≡ false) × Apart (k ∷ seen) ks × Distinct ks)
      ↔ (Apart seen (k ∷ ks) × Distinct (k ∷ ks))
field_iff k seen ks =
    ground (arith, Apart-cons k seen ks, contains_iff_Fresh text_eq text_eq_iff k seen)

unique_iff : (v : Value) → Decides v
unfolding unique Unique
unique_iff v = elim v as Decides DecidesElements DecidesFields [
  | array (es → ih) ↦ ih
  | object (fs → ih) ↦ ground (arith, ih [], Apart-nil (keys fs))
  | no_elements ↦ (λ h. tt, λ h. refl)
  | element (w → ih) (es → ihs) ↦ ground (arith, ih, ihs)
  | no_fields ↦ λ seen. (λ h. (tt, tt, tt), λ h. refl)
  | field k (w → ih) (fs → ihs) ↦
      λ seen. ground (arith, ih, ihs (k ∷ seen), field_iff k seen (keys fs))
  | _ ↦ (λ h. tt, λ h. refl)
]

verdict-result :
    (b : Bool) (rest : Decoder)
    → (scan_result (verdict b rest) ≡ some (ok tt)) ↔ ((b ≡ true) × (rest ≡ []))
unfolding scan_result require_eof
verdict-result false rest = (λ h. cc, λ h. cc)
verdict-result true [] = (λ h. (refl, refl), λ h. refl)
verdict-result true (malformed ∷ rest) = (λ h. cc, λ h. cc)
verdict-result true (t ∷ rest) = (λ h. cc, λ h. cc)

-- For the tokens of a JSON value, with anything behind them: the scan accepts them exactly when no
-- object in the value, however deep, has a key twice and nothing is behind it.
pub reject_duplicate_keys_iff :
    (v : Value) (rest : Decoder)
    → (reject_duplicate_keys (emit v ++ rest) ≡ some (ok tt)) ↔ (Unique v × (rest ≡ []))
unfolding reject_duplicate_keys
reject_duplicate_keys_iff v rest =
    rw (scan_value-emit v rest (2 * length (emit v ++ rest) + 2) (omega (arith, emitted v rest)))
      (ground (arith, verdict-result (unique v) rest, unique_iff v))
