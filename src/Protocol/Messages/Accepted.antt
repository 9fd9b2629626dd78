-- ===== src/Protocol/Messages/Accepted.antt =====
-- What the validators of hellos, commands and replies accept, each described without reference to
-- the order of its checks.
use sysc_tray.Prelude.{
  ℕ, suc, ◌^◌, ◌<◌, ◌≤◌, ◌≡◌, ◌≢◌, ◌⊎◌, ◌↔◌, Bool, true, false, List, [], ◌∷◌, Option, none, some,
  arith, ok, Text, text_eq, text_eq_iff, All, pos, abs, is_negative, eq_ℤ_iff, Distinct, Apart,
  Apart-nil, Apart-cons, contains_iff_Fresh,
}
use sysc_tray.Protocol.Types.{
  Hello, ItemKey, CommandKind, ScrollOrientation, Command, Reply, ProtocolError, protocol_major,
  max_text_bytes, max_coordinate, is_zero,
}
use sysc_tray.Protocol.Fields.{
  validate_text-required, validate_text-optional, validate_key_iff, IsText, IsKey,
  validate_coordinate, orientation_valid, error_code_valid,
}
use sysc_tray.Protocol.Messages.{
  validate_next_sequence, validate_capabilities, validate_hello, validate_kind, validate_command,
  names_item_only, validate_reply, validate_error, one_outcome, is_some,
}

-- A uint64 sequence number follows another exactly when it is the next number: the largest one has
-- no successor.
pub validate_next_sequence_iff :
    (previous next : ℕ)
    → previous < 2 ^ 64
    → (validate_next_sequence previous next ≡ ok tt)
      ↔ ((next ≡ suc previous) × (suc previous < 2 ^ 64))
unfolding validate_next_sequence
validate_next_sequence_iff previous next h = ground arith

abbrev pub IsCapability : Text → Type 0
IsCapability c = IsText max_text_bytes c × (c ≢ [])

validate_capabilities_iff :
    (seen cs : List Text)
    → (validate_capabilities seen cs ≡ ok tt) ↔ (All IsCapability cs × Distinct cs × Apart seen cs)
unfolding validate_capabilities
validate_capabilities_iff seen [] = ground arith
validate_capabilities_iff seen (c ∷ cs) = ground (
  arith,
  validate_text-required c max_text_bytes,
  contains_iff_Fresh text_eq text_eq_iff c seen,
  Apart-cons c seen cs,
  validate_capabilities_iff (c ∷ seen) cs,
)

-- A hello passes exactly when it has the major version and the expected role, and its capabilities
-- are non-empty valid texts of which none occurs twice; its minor version is free.
pub validate_hello_iff :
    (role : Text) (h : Hello)
    → (validate_hello role h ≡ ok tt) ↔ (
        (h.major ≡ protocol_major)
        × (h.role ≡ role)
        × All IsCapability h.capabilities
        × Distinct h.capabilities)
unfolding validate_hello
validate_hello_iff role h = ground (
  arith,
  text_eq_iff h.role role,
  validate_capabilities_iff [] h.capabilities,
  Apart-nil h.capabilities,
)

-- What each kind of command asks for beside a valid item key.
pub record IsBare (c : Command) : Type 0 where
  pub x : c.x ≡ pos 0
  pub y : c.y ≡ pos 0
  pub delta : c.delta ≡ pos 0
  pub menu_revision : c.menu_revision ≡ 0
  pub menu_id : c.menu_id ≡ pos 0
  pub serial : c.serial ≡ 0
  pub params : c.params ≡ []
  pub orientation : c.orientation ≡ ScrollOrientation.unset

abbrev pub Shape : CommandKind → Command → Type 0
Shape CommandKind.terminate c = IsBare c
Shape CommandKind.scroll c = (c.delta ≢ pos 0) × (orientation_valid c.orientation ≡ true)
Shape CommandKind.menu_select c = c.menu_id ≢ pos 0
Shape (CommandKind.other t) c = ⊥
Shape _ c = Unit {0}

pub record IsCommand (json_valid : Text → Bool) (c : Command) : Type 0 where
  pub item : IsKey c.item
  pub x : abs c.x ≤ max_coordinate
  pub y : abs c.y ≤ max_coordinate
  pub menu_id : is_negative c.menu_id ≡ false
  pub params : (c.params ≡ []) ⊎ (json_valid c.params ≡ true)
  pub shape : Shape c.kind c

names_item_only_iff : (c : Command) → (names_item_only c ≡ true) ↔ IsBare c
unfolding names_item_only
names_item_only_iff c = ground arith

validate_kind_iff : (k : CommandKind) (c : Command) → (validate_kind k c ≡ ok tt) ↔ Shape k c
unfolding validate_kind
validate_kind_iff CommandKind.terminate c = ground (arith, names_item_only_iff c)
validate_kind_iff CommandKind.scroll c = ground (arith, eq_ℤ_iff c.delta (pos 0))
validate_kind_iff CommandKind.menu_select c = ground (arith, eq_ℤ_iff c.menu_id (pos 0))
validate_kind_iff (CommandKind.other t) c = ground arith
validate_kind_iff _ c = ground arith

-- A command passes exactly when its key is valid, its coordinates are within 65536 of zero, its
-- menu ID is not negative, its parameters are absent or valid JSON, and its fields fit its kind: a
-- terminate carries only the key, a scroll has a delta and a known orientation, a menu selection
-- does not name the root, and no unknown kind passes.
pub validate_command_iff :
    (json_valid : Text → Bool) (c : Command)
    → (validate_command json_valid c ≡ ok tt) ↔ IsCommand json_valid c
unfolding validate_command validate_coordinate
validate_command_iff json_valid c =
    ground (arith, validate_key_iff c.item, validate_kind_iff c.kind c)

-- The key of a reply: all zero, or valid.
abbrev pub IsReplyKey : ItemKey → Type 0
IsReplyKey k = (is_zero k ≡ true) ⊎ IsKey k

-- The outcome of a reply: a success has no error, a failure has one with a known code and a
-- valid message.
abbrev pub IsOutcome : Bool → Option ProtocolError → Type 0
IsOutcome true none = Unit {0}
IsOutcome true (some e) = ⊥
IsOutcome false none = ⊥
IsOutcome false (some e) = (error_code_valid e.code ≡ true) × IsText max_text_bytes e.message

IsOutcome-iff :
    (b : Bool) (o : Option ProtocolError)
    → ((one_outcome b (is_some o) ≡ true) × (validate_error o ≡ ok tt)) ↔ IsOutcome b o
unfolding validate_error
IsOutcome-iff true none = ground arith
IsOutcome-iff true (some e) = ground arith
IsOutcome-iff false none = ground arith
IsOutcome-iff false (some e) = ground (arith, validate_text-optional e.message max_text_bytes)

-- A reply passes exactly when it is a success with no error, or a failure whose error has a known
-- code and a valid message, and its key is all zero or valid.
pub validate_reply_iff :
    (r : Reply) → (validate_reply r ≡ ok tt) ↔ (IsOutcome r.is_success r.error × IsReplyKey r.item)
unfolding validate_reply
validate_reply_iff r = ground (arith, IsOutcome-iff r.is_success r.error, validate_key_iff r.item)
