-- ===== src/Protocol/Messages.antt =====
-- protocol/validate.go: envelopes, hellos, sequence numbers, commands and replies. `json_valid` is
-- `json.Valid` of Go's encoding/json.
pub mod Accepted
use sysc_tray.Prelude.{
  ℕ, zero, suc, ◌+◌, ◌-◌, ◌%◌, ◌^◌, ◌<◌, ◌≤◌, ◌≡◌, refl, ◌≢◌, ◌⊎◌, inl, inr, ◌↔◌, Bool, true, false,
  not, ◌&&◌, ◌||◌, List, [], ◌∷◌, Option, none, some, arith, ltb, leb, ◌==◌, Result, ok, err, ◌>>=◌,
  ◌>>◌, require, Text, text_eq, text_eq_iff, length, All, ℤ, pos, abs, is_negative, eq_ℤ, eq_ℤ_iff,
  Fresh, Distinct, Apart, Apart-nil, Apart-cons, contains, contains_iff_Fresh,
}
use sysc_tray.Protocol.Types.{
  Kind, Envelope, Hello, ItemKey, CommandKind, ScrollOrientation, Command, Reply, ProtocolError,
  ErrorCode, protocol_major, max_text_bytes, max_coordinate, is_zero,
}
use sysc_tray.Protocol.Errors.{
  Error, Check, envelope_invalid_payload, hello_has_correlation, snapshot_has_request_id,
  state_invalid_sequence, request_invalid_id, unknown_message_kind, sequence_gap,
  incompatible_major, unexpected_role, duplicate_capability, negative_menu_id, params_not_json,
  terminate_extra_fields, zero_scroll_delta, invalid_orientation, selects_root,
  invalid_command_kind, reply_not_one_outcome, invalid_error_code,
}
use sysc_tray.Protocol.Fields.{
  validate_text, validate_text-required, validate_text-optional, validate_key, validate_key_iff,
  IsText, IsKey, validate_coordinate, orientation_valid, error_code_valid,
}

state_fields : Envelope → Check
state_fields e = require (not ((e.sequence == 0) || not (e.request_id == 0))) state_invalid_sequence

request_fields : Envelope → Check
request_fields e = require (not ((e.request_id == 0) || not (e.sequence == 0))) request_invalid_id

-- The switch on the kind.
correlation : Kind → Envelope → Check
unfolding state_fields request_fields
correlation Kind.hello e =
    require (not (not (e.request_id == 0) || not (e.sequence == 0))) hello_has_correlation
correlation Kind.snapshot e = require (e.request_id == 0) snapshot_has_request_id
correlation Kind.item_added e = state_fields e
correlation Kind.item_changed e = state_fields e
correlation Kind.item_removed e = state_fields e
correlation Kind.menu_updated e = state_fields e
correlation Kind.command e = request_fields e
correlation Kind.reply e = request_fields e
correlation (Kind.other t) e = err unknown_message_kind

unfoldable pub validate_envelope : (Text → Bool) → Envelope → Check
unfolding correlation
validate_envelope json_valid e =
    require (not ((length e.payload == 0) || not (json_valid e.payload))) envelope_invalid_payload
    >> correlation e.kind e

-- `previous == ^uint64(0) || next != previous+1`
unfoldable pub validate_next_sequence : ℕ → ℕ → Check
validate_next_sequence previous next =
    require (not ((previous == 2 ^ 64 - 1) || not (next == (previous + 1) % 2 ^ 64))) sequence_gap

validate_capabilities : List Text → List Text → Check
validate_capabilities seen [] = ok tt
validate_capabilities seen (c ∷ cs) =
    let rest = validate_capabilities (c ∷ seen) cs in
    validate_text c max_text_bytes false
    >> require (not (contains text_eq c seen)) duplicate_capability
    >> rest

unfoldable pub validate_hello : Text → Hello → Check
unfolding validate_capabilities
validate_hello role h =
    require (h.major == protocol_major) incompatible_major
    >> require (text_eq h.role role) unexpected_role
    >> validate_capabilities [] h.capabilities

abbrev is_unset : ScrollOrientation → Bool
is_unset ScrollOrientation.unset = true
is_unset o = false

-- The fields that a terminate command must leave empty.
pub names_item_only : Command → Bool
names_item_only c =
    eq_ℤ c.x (pos 0)
    && (eq_ℤ c.y (pos 0)
        && (eq_ℤ c.delta (pos 0)
            && ((c.menu_revision == 0)
                && (eq_ℤ c.menu_id (pos 0)
                    && ((c.serial == 0) && ((length c.params == 0) && is_unset c.orientation))))))

-- The switch on the kind of a command.
validate_kind : CommandKind → Command → Check
unfolding names_item_only
validate_kind CommandKind.activate c = ok tt
validate_kind CommandKind.secondary_activate c = ok tt
validate_kind CommandKind.menu_open c = ok tt
validate_kind CommandKind.menu_close c = ok tt
validate_kind CommandKind.terminate c = require (names_item_only c) terminate_extra_fields
validate_kind CommandKind.scroll c =
    require (not (eq_ℤ c.delta (pos 0))) zero_scroll_delta
    >> require (orientation_valid c.orientation) invalid_orientation
validate_kind CommandKind.menu_select c = require (not (eq_ℤ c.menu_id (pos 0))) selects_root
validate_kind CommandKind.about_to_show c = ok tt
validate_kind (CommandKind.other t) c = err invalid_command_kind

unfoldable pub validate_command : (Text → Bool) → Command → Check
unfolding validate_kind
validate_command json_valid c =
    validate_key c.item
    >> validate_coordinate c.x
    >> validate_coordinate c.y
    >> require (not (is_negative c.menu_id)) negative_menu_id
    >> require (not (ltb 0 (length c.params) && not (json_valid c.params))) params_not_json
    >> validate_kind c.kind c

unfoldable pub validate_error : Option ProtocolError → Check
validate_error none = ok tt
validate_error (some e) =
    require (error_code_valid e.code) invalid_error_code
    >> validate_text e.message max_text_bytes true

abbrev pub is_some {ℓ} : {A : Type ℓ} → Option A → Bool
is_some none = false
is_some (some a) = true

-- `r.OK == (r.Error != nil)` fails.
abbrev one_outcome : Bool → Bool → Bool
one_outcome true failed = not failed
one_outcome false failed = failed

validate_reply_item : ItemKey → Check
validate_reply_item k = elim (is_zero k) [ true ↦ ok tt | false ↦ validate_key k ]

unfoldable pub validate_reply : Reply → Check
unfolding validate_reply_item validate_error
validate_reply r =
    require (one_outcome r.is_success (is_some r.error)) reply_not_one_outcome
    >> validate_reply_item r.item
    >> validate_error r.error
