-- ===== src/Presenter/Handshake.antt =====
-- internal/presenter/server.go: which presenter `handle` lets in. The user of the peer and the frame
-- that arrives in time are `none` where the source gets an error; the decoders are `DecodeStrict` at
-- the two types, and `json_valid` is `json.Valid`.
pub mod Greeting
use sysc_tray.Prelude.{
  ℕ, ◌≡◌, Bool, true, false, ◌&&◌, List, [], ◌∷◌, Option, none, some, arith, Option-cases,
  Bool-cases, inl, inr, ◌==◌, if◌then◌else◌, ok, is_ok, is_ok_iff, Text, text_eq, text_eq_iff, All,
  Distinct, Fresh,
}
use sysc_tray.Protocol.Types.{
  Kind, Envelope, Hello, protocol_major, role_presenter, capability_tray,
}
use sysc_tray.Protocol.Messages.{validate_envelope, validate_hello}
use sysc_tray.Protocol.Messages.Accepted.{validate_hello_iff, IsCapability}

pub record Decoders : Type 0 where
  pub decode_envelope : Text → Option Envelope
  pub decode_hello : Text → Option Hello
  pub json_valid : Text → Bool

is_hello : Kind → Bool
is_hello Kind.hello = true
is_hello k = false

pub has_capability : List Text → Text → Bool
has_capability [] required = false
has_capability (c ∷ cs) required = if text_eq c required then true else has_capability cs required

check_hello : Hello → Option Hello
check_hello h = if is_ok (validate_hello role_presenter h) then some h else none

module _ (decoders : Decoders) where
  open_envelope : Envelope → Option Hello
  unfolding is_hello check_hello
  open_envelope e =
      if is_ok (validate_envelope decoders.json_valid e) && is_hello e.kind
      then elim (decoders.decode_hello e.payload) [ none ↦ none | some h ↦ check_hello h ]
      else none

  pub read_hello : Option Text → Option Hello
  unfolding open_envelope
  read_hello none = none
  read_hello (some frame) = elim (decoders.decode_envelope frame) [
    | none ↦ none
    | some e ↦ open_envelope e
  ]

  -- The beginning of `handle`: the hello of a peer that goes on to be attached.
  unfoldable pub admit : ℕ → Option ℕ → Option Text → Option Hello
  unfolding read_hello has_capability
  admit own none frame = none
  admit own (some uid) frame =
      if uid == own
      then elim (read_hello frame) [
        | none ↦ none
        | some h ↦ if has_capability h.capabilities capability_tray then some h else none
      ]
      else none

has_capability_iff : (cs : List Text) (c : Text) → (has_capability cs c ≡ true) → ¬ Fresh c cs
unfolding has_capability
has_capability_iff [] c h f = ground arith
has_capability_iff (d ∷ cs) c h f = ground (arith, text_eq_iff d c, has_capability_iff cs c)

-- What a hello must be.
pub record IsGreeting (h : Hello) : Type 0 where
  pub major : h.major ≡ protocol_major
  pub role : h.role ≡ role_presenter
  pub texts : All IsCapability h.capabilities
  pub once : Distinct h.capabilities
  pub tray : ¬ Fresh capability_tray h.capabilities

check_hello-role : (g h : Hello) → check_hello g ≡ some h → validate_hello role_presenter h ≡ ok tt
unfolding check_hello
check_hello-role g h eq = elim (Bool-cases (is_ok (validate_hello role_presenter g))) [
  | inl good ↦ ground (arith, is_ok_iff (validate_hello role_presenter g))
  | inr bad ↦ ground arith
]

module _ (decoders : Decoders) where
  open_envelope-role :
      (e : Envelope) (h : Hello)
      → open_envelope decoders e ≡ some h
      → validate_hello role_presenter h ≡ ok tt
  unfolding open_envelope
  open_envelope-role e h eq = elim (Option-cases (decoders.decode_hello e.payload)) [
    | inl bad ↦ ground arith
    | inr (g, good) ↦ ground (arith, check_hello-role g h)
  ]

  read_hello-role :
      (frame : Option Text) (h : Hello)
      → read_hello decoders frame ≡ some h
      → validate_hello role_presenter h ≡ ok tt
  unfolding read_hello
  read_hello-role none h eq = ground arith
  read_hello-role (some frame) h eq = elim (Option-cases (decoders.decode_envelope frame)) [
    | inl bad ↦ ground arith
    | inr (e, good) ↦ ground (arith, open_envelope-role e h)
  ]

  -- A presenter is let in only when it runs as the service's user, and its hello has the major version
  -- and the role, valid capabilities, none twice, and among them the tray.
  pub admit-IsGreeting :
      (own : ℕ) (peer : Option ℕ) (frame : Option Text) (h : Hello)
      → admit decoders own peer frame ≡ some h
      → (peer ≡ some own) × IsGreeting h
  unfolding admit
  admit-IsGreeting own none frame h eq = ground arith
  admit-IsGreeting own (some uid) frame h eq = elim (Option-cases (read_hello decoders frame)) [
    | inl bad ↦ ground arith
    | inr (g, good) ↦ ground (
      arith,
      read_hello-role frame h,
      validate_hello_iff role_presenter h,
      has_capability_iff h.capabilities capability_tray,
    )
  ]
