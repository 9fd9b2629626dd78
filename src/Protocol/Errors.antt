-- ===== src/Protocol/Errors.antt =====
-- The errors of protocol/validate.go, one constructor for each message.
use sysc_tray.Prelude.{Result}

pub data Error : Type 0 where
  envelope_invalid_payload hello_has_correlation snapshot_has_request_id : Error
  state_invalid_sequence request_invalid_id unknown_message_kind sequence_gap : Error
  incompatible_major unexpected_role duplicate_capability : Error
  text_not_utf8 text_invalid_length : Error
  owner_not_unique path_not_absolute zero_generation : Error
  too_many_items duplicate_item aggregate_budget : Error
  invalid_category invalid_status item_pixmap_budget : Error
  pixmap_dimensions pixmap_data_mismatch pixmap_budget : Error
  menu_root_not_zero menu_depth menu_node_count negative_menu_id duplicate_menu_id : Error
  invalid_toggle_type invalid_children_display menu_icon_budget : Error
  coordinate_out_of_range params_not_json terminate_extra_fields zero_scroll_delta : Error
  invalid_orientation selects_root invalid_command_kind : Error
  reply_not_one_outcome invalid_error_code : Error
  read_length read_payload invalid_frame_length write_length write_payload : Error

abbrev pub Check : Type 0
Check = Result Error Unit
