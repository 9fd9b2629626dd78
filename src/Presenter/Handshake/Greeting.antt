-- ===== src/Presenter/Handshake/Greeting.antt =====
-- internal/presenter/server.go: readHello with the strict decoder of protocol/frame.go in it, for the
-- envelope and for the hello that the envelope carries.
use sysc_tray.Prelude.{
  ℕ, ◌≡◌, arith, Bool, true, [], ◌++◌, Option, none, some, Option-cases, inl, inr, Text, Result, ok,
  err,
}
use sysc_tray.Utf8.{valid_string}
use sysc_tray.Protocol.Types.{Envelope, Hello}
use sysc_tray.Protocol.Strict.{Decoder, StrictError, decode_strict}
use sysc_tray.Protocol.Strict.Trees.{Value, emit, Unique}
use sysc_tray.Protocol.Strict.Accepted.{decode_strict_iff}
use sysc_tray.Presenter.Handshake.{Decoders, admit, read_hello, open_envelope, check_hello}

-- An error of DecodeStrict is the end of readHello.
accepted {ℓ} : {A : Type ℓ} → Option (Result StrictError A) → Option A
accepted none = none
accepted (some (err e)) = none
accepted (some (ok a)) = some a

accepted-some :
    {A : Type 0} (o : Option (Result StrictError A)) (a : A) → accepted o ≡ some a → o ≡ some (ok a)
unfolding accepted
accepted-some none a h = cc
accepted-some (some (err e)) a h = cc
accepted-some (some (ok b)) a h = ground arith

module _ (tokens : Text → Decoder) (envelope_of : Text → Option (Envelope × Decoder))
    (hello_of : Text → Option (Hello × Decoder)) (json_valid : Text → Bool) where
  -- The two calls of DecodeStrict in readHello.
  unfoldable pub strict_decoders : Decoders
  unfolding accepted
  strict_decoders = record {
    decode_envelope = λ t. accepted (decode_strict tokens envelope_of t);
    decode_hello = λ t. accepted (decode_strict tokens hello_of t);
    json_valid = json_valid;
  }

  check_hello-same : (g h : Hello) → check_hello g ≡ some h → g ≡ h
  unfolding check_hello
  check_hello-same g h eq = ground arith

  open_envelope-hello :
      (e : Envelope) (h : Hello)
      → open_envelope strict_decoders e ≡ some h
      → decode_strict tokens hello_of e.payload ≡ some (ok h)
  unfolding open_envelope strict_decoders
  open_envelope-hello e h eq = elim (Option-cases (strict_decoders.decode_hello e.payload)) [
    | inl bad ↦ ground arith
    | inr (g, good) ↦
        ground
          (arith, check_hello-same g h, accepted-some (decode_strict tokens hello_of e.payload) g)
  ]

  Carried : Text → Hello → Type 0
  Carried frame h =
      (e : Envelope) × (decode_strict tokens envelope_of frame ≡ some (ok e))
      × (decode_strict tokens hello_of e.payload ≡ some (ok h))

  read_hello-Carried :
      (frame : Text) (h : Hello)
      → read_hello strict_decoders (some frame) ≡ some h
      → Carried frame h
  unfolding read_hello strict_decoders Carried
  read_hello-Carried frame h eq =
      elim (Option-cases (accepted (decode_strict tokens envelope_of frame))) [
        | inl bad ↦ absurd (ground arith)
        | inr (e, good) ↦ (
          e,
          accepted-some (decode_strict tokens envelope_of frame) e good,
          open_envelope-hello e h (ground arith),
        )
      ]

  admit-read_hello :
      (own : ℕ) (peer : Option ℕ) (frame : Text) (h : Hello)
      → admit strict_decoders own peer (some frame) ≡ some h
      → read_hello strict_decoders (some frame) ≡ some h
  unfolding admit
  admit-read_hello own none frame h eq = cc
  admit-read_hello own (some uid) frame h eq =
      elim (Option-cases (read_hello strict_decoders (some frame))) [
        | inl bad ↦ ground arith
        | inr (g, good) ↦ ground arith
      ]

  -- A presenter that is let in sent a frame whose tokens are a JSON value with anything behind it, only if:
  -- the frame is UTF-8, no object in it has a key twice and nothing is behind the value; and the payload
  -- of the envelope in it is decoded as strictly, to the hello.
  pub admit-Unique :
      (own : ℕ) (peer : Option ℕ) (frame : Text) (h : Hello) (v : Value) (rest : Decoder)
      → tokens frame ≡ emit v ++ rest
      → admit strict_decoders own peer (some frame) ≡ some h
      → (valid_string frame ≡ true)
        × Unique v
        × (rest ≡ [])
        × ((e : Envelope) × (envelope_of frame ≡ some (e, []))
            × (decode_strict tokens hello_of e.payload ≡ some (ok h)))
  unfolding Carried
  admit-Unique own peer frame h v rest lexed eq =
      let (e, outer, inner) = read_hello-Carried frame h (admit-read_hello own peer frame h eq) in
      let (utf8, once, alone, whole) =
        (decode_strict_iff tokens envelope_of frame v rest e lexed).1.0 outer in
      (utf8, once, alone, (e, whole, inner))
