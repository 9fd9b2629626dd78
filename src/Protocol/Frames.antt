-- ===== src/Protocol/Frames.antt =====
-- protocol/frame.go: `ReadFrame`, `WriteFrame` and `writeAll`. A reader is the bytes that are still to
-- come, a writer lives in a world `W` and may take a part of what it is given.
use mathlib.Core.List.{append_assoc, append-nil}
use sysc_tray.Prelude.{
  ℕ, zero, suc, ◌+◌, ◌*◌, ◌/◌, ◌%◌, ◌^◌, ◌≤◌, ◌<◌, ◌≡◌, refl, ap, sym, ◌≢◌, inl, inr, ◌||◌, [], ◌∷◌,
  ◌++◌, Option, none, some, arith, ltb, ◌==◌, Option-cases, if◌then◌else◌, length, Text, Result, ok,
  err,
}

abbrev pub max_frame_size : ℕ
max_frame_size = 16777216

pub data FrameError : Type 0 where
  no_length invalid_length no_payload write_failed short_write : FrameError

-- `io.ReadFull` of `n` bytes.
read_full : ℕ → Text → Option (Text × Text)
read_full zero t = some ([], t)
read_full (suc n) [] = none
read_full (suc n) (c ∷ t) = elim (read_full n t) [ none ↦ none | some (a, b) ↦ some (c ∷ a, b) ]

-- `binary.BigEndian`
put_uint32 : ℕ → Text
put_uint32 n = n / 16777216 % 256 ∷ n / 65536 % 256 ∷ n / 256 % 256 ∷ n % 256 ∷ []

uint32_of : Text → ℕ
uint32_of (a ∷ b ∷ c ∷ d ∷ t) = a * 16777216 + b * 65536 + c * 256 + d
uint32_of t = 0

read_payload : ℕ → Text → Result FrameError (Text × Text)
unfolding read_full
read_payload n t =
    if (n == 0) || ltb max_frame_size n
    then err invalid_length
    else elim (read_full n t) [ none ↦ err no_payload | some p ↦ ok p ]

-- The payload of the first frame, and the bytes behind it.
pub read_frame : Text → Result FrameError (Text × Text)
unfolding read_full uint32_of read_payload
read_frame t = elim (read_full 4 t) [
  | none ↦ err no_length
  | some (header, rest) ↦ read_payload (uint32_of header) rest
]

unfoldable pub take_bytes : ℕ → Text → Text
take_bytes zero t = []
take_bytes (suc n) [] = []
take_bytes (suc n) (c ∷ t) = c ∷ take_bytes n t

drop_bytes : ℕ → Text → Text
drop_bytes zero t = t
drop_bytes (suc n) [] = []
drop_bytes (suc n) (c ∷ t) = drop_bytes n t

abbrev pub Written : Type 0
Written = Option (Result FrameError (Unit {0}))

module _ {W : Type 0} (write : Text → W → W × Option ℕ) where
  -- The loop on fuel; `none` means that the fuel ran out. `write` gives `none` for an error.
  pub write_all : ℕ → Text → W → W × Written
  unfolding drop_bytes
  write_all fuel [] w = (w, some (ok tt))
  write_all zero (c ∷ p) w = (w, none)
  write_all (suc fuel) (c ∷ p) w =
      let (w', r) = write (c ∷ p) w in
      elim r [
        | none ↦ (w', some (err write_failed))
        | some n ↦
            if n == 0
            then (w', some (err short_write))
            else write_all fuel (drop_bytes n (c ∷ p)) w'
      ]

  -- Each round takes a byte or more.
  send_all : Text → W → W × Written
  unfolding write_all
  send_all p w = write_all (length p) p w

  write_payload : Text → W × Written → W × Written
  unfolding send_all
  write_payload p (w, some (ok u)) = send_all p w
  write_payload p (w, r) = (w, r)

  unfoldable pub write_frame : Text → W → W × Written
  unfolding write_payload send_all put_uint32
  write_frame p w =
      if (length p == 0) || ltb max_frame_size (length p)
      then (w, some (err invalid_length))
      else write_payload p (send_all (put_uint32 (length p)) w)

-- io.Writer: of what it was given, the writer took the first bytes, as many as it says.
abbrev pub IsWriter : {W : Type 0} → (Text → W → W × Option ℕ) → (W → Text) → Type 0
IsWriter {W} write received =
    (p : Text) (w : W) (n : ℕ)
    → (write p w).1 ≡ some n
    → received (write p w).0 ≡ received w ++ take_bytes n p

take-drop : (n : ℕ) (t : Text) → take_bytes n t ++ drop_bytes n t ≡ t
unfolding take_bytes drop_bytes
take-drop zero t = refl
take-drop (suc n) [] = refl
take-drop (suc n) (c ∷ t) = ap (λ (x : Text). c ∷ x) (take-drop n t)

length-drop : (n : ℕ) (c : ℕ) (t : Text) → n ≢ 0 → length (drop_bytes n (c ∷ t)) ≤ length t
unfolding drop_bytes
length-drop zero c t h = absurd (h refl)
length-drop (suc zero) c t h = omega arith
length-drop (suc (suc n)) c [] h = omega arith
length-drop (suc (suc n)) c (d ∷ t) h = omega (arith, length-drop (suc n) d t (omega arith))

module _ {W : Type 0} (write : Text → W → W × Option ℕ) where
  write_all_ends :
      (fuel : ℕ) (p : Text) (w : W) → length p ≤ fuel → (write_all write fuel p w).1 ≢ none
  unfolding write_all
  write_all_ends fuel [] w h = ground arith
  write_all_ends zero (c ∷ p) w h = ground arith
  write_all_ends (suc fuel) (c ∷ p) w h = elim (Option-cases (write (c ∷ p) w).1) [
    | inl bad ↦ ground arith
    | inr (n, good) ↦
        ground
          (arith, length-drop n c p, write_all_ends fuel (drop_bytes n (c ∷ p)) (write (c ∷ p) w).0)
  ]

  module _ (received : W → Text) (writes : IsWriter write received) where
    write_all-received :
        (fuel : ℕ) (p : Text) (w : W)
        → (write_all write fuel p w).1 ≡ some (ok tt)
        → received (write_all write fuel p w).0 ≡ received w ++ p
    unfolding write_all
    write_all-received fuel [] w h = sym (append-nil (received w))
    write_all-received zero (c ∷ p) w h = ground arith
    write_all-received (suc fuel) (c ∷ p) w h = elim (Option-cases (write (c ∷ p) w).1) [
      | inl bad ↦ ground arith
      | inr (n, good) ↦ ground (
        arith,
        writes (c ∷ p) w n good,
        write_all-received fuel (drop_bytes n (c ∷ p)) (write (c ∷ p) w).0,
        append_assoc (received w) (take_bytes n (c ∷ p)) (drop_bytes n (c ∷ p)),
        take-drop n (c ∷ p),
      )
    ]

    payload-received :
        (p : Text) (w : W) (r : Written)
        → (write_payload write p (w, r)).1 ≡ some (ok tt)
        → (r ≡ some (ok tt)) × (received (write_payload write p (w, r)).0 ≡ received w ++ p)
    unfolding write_payload
    payload-received p w (some (ok u)) h = (refl, write_all-received (length p) p w h)
    payload-received p w (some (err e)) h = ground arith
    payload-received p w none h = ground arith

    -- A frame that was written is its length and its payload.
    write_frame-received :
        (p : Text) (w : W)
        → (write_frame write p w).1 ≡ some (ok tt)
        → (0 < length p)
          × (length p ≤ max_frame_size)
          × (received (write_frame write p w).0 ≡ received w ++ (put_uint32 (length p) ++ p))
    unfolding write_frame
    write_frame-received p w h =
        let q = put_uint32 (length p) in
        let x = write_all write (length q) q w in
        ground (
          arith,
          payload-received p x.0 x.1,
          write_all-received (length q) q w,
          append_assoc (received w) q p,
        )

  payload_ends :
      (p : Text) (w : W) (r : Written) → r ≢ none → (write_payload write p (w, r)).1 ≢ none
  unfolding write_payload
  payload_ends p w (some (ok u)) h = write_all_ends (length p) p w (omega arith)
  payload_ends p w (some (err e)) h = ground arith
  payload_ends p w none h = absurd (h refl)

  -- Whatever the writer does, `WriteFrame` ends.
  pub write_frame_ends : (p : Text) (w : W) → (write_frame write p w).1 ≢ none
  unfolding write_frame
  write_frame_ends p w =
      let q = put_uint32 (length p) in
      let x = write_all write (length q) q w in
      ground (arith, payload_ends p x.0 x.1, write_all_ends (length q) q w)

read_full-append : (p t : Text) → read_full (length p) (p ++ t) ≡ some (p, t)
unfolding read_full
read_full-append [] t = refl
read_full-append (c ∷ p) t = ground (arith, read_full-append p t)

uint32-put : (n : ℕ) → n < 2 ^ 32 → uint32_of (put_uint32 n) ≡ n
unfolding uint32_of put_uint32
uint32-put n h = omega arith

read_full_header : (n : ℕ) (t : Text) → read_full 4 (put_uint32 n ++ t) ≡ some (put_uint32 n, t)
unfolding put_uint32
read_full_header n t = read_full-append (put_uint32 n) t

read_frame-put :
    (p t : Text)
    → 0 < length p
    → length p ≤ max_frame_size
    → read_frame (put_uint32 (length p) ++ (p ++ t)) ≡ ok (p, t)
unfolding read_frame
read_frame-put p t few many =
    ground
      (arith, read_full_header (length p) (p ++ t), uint32-put (length p), read_full-append p t)

-- When `WriteFrame` reports success on a writer that may take its bytes in parts, what it added is a
-- frame of which `ReadFrame` gives back the payload and leaves what follows.
pub write_frame-read :
    {W : Type 0} (write : Text → W → W × Option ℕ) (received : W → Text)
    → IsWriter write received
    → (p : Text) (w : W) → (write_frame write p w).1 ≡ some (ok tt)
    → (added : Text) × (received (write_frame write p w).0 ≡ received w ++ added)
      × ((t : Text) → read_frame (added ++ t) ≡ ok (p, t))
write_frame-read write received writes p w h =
    let f = write_frame-received write received writes p w h in
    (
      put_uint32 (length p) ++ p,
      f.2,
      λ t. rw (append_assoc (put_uint32 (length p)) p t) (read_frame-put p t f.0 f.1),
    )
