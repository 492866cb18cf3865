-- ===== src/Error.antt =====
-- src/error.c: the error that the last call of a thread left behind, with include/stumpless/error.h
-- and the macro names of include/private/config/locale/en-us.h for the texts, which the build picks.
use Prim.Native.String.{String}
use stumpless.Base.{ℕ, ◌-◌, ◌^◌, Option, ltb, if◌then◌else◌}
use stumpless.Base.Int.{ℤ, pos, negsuc}

-- `enum stumpless_error_id`
pub data ErrorId : Type 0 where
  address_failure argument_empty argument_too_big duplicate_element element_not_found : ErrorId
  file_open_failure file_write_failure index_out_of_bounds invalid_facility invalid_id : ErrorId
  invalid_severity memory_allocation_failure network_protocol_unsupported : ErrorId
  param_not_found socket_bind_failure socket_connect_failure socket_failure : ErrorId
  socket_send_failure stream_write_failure target_incompatible target_unsupported : ErrorId
  transport_protocol_unsupported windows_event_log_close_failure : ErrorId
  windows_event_log_open_failure invalid_encoding gethostname_failure : ErrorId
  function_target_failure journald_failure windows_failure invalid_param_string : ErrorId
  sqlite3_busy sqlite3_callback_failure sqlite3_failure network_closed : ErrorId
  argument_too_small : ErrorId

-- A text of the locale, by its macro and the macro's argument.
pub data L10n : Type 0 where
  null_arg_error_message format_error_message invalid_index_error_message : String → L10n
  string_too_long_error_message buffer_too_small_error_message : L10n
  duplicate_element_error_message element_not_found_error_message : L10n
  invalid_facility_error_message invalid_id_error_message : L10n
  invalid_severity_error_message memory_allocation_failure_error_message : L10n
  param_not_found_error_message invalid_param_error_message : L10n
  invalid_target_type_error_message invalid_state_during_utf8_parsing : L10n
  target_always_open_error_message stream_write_failure_error_message : L10n
  severity_colors_unsupported_target_error_message : L10n
  function_target_failure_error_message : L10n
  literal : String → L10n

-- The names of what `code` holds.
pub data CodeType : Type 0 where
  string_length_error_code_type buffer_size_error_code_type : CodeType
  message_size_error_code_type index_out_of_bounds_error_code_type : CodeType
  invalid_facility_error_code_type invalid_severity_error_code_type : CodeType
  function_target_failure_code_type : CodeType

-- `struct stumpless_error`
pub record Error : Type 0 where
  pub id : ErrorId
  pub message : L10n
  pub code : ℤ
  pub code_type : Option CodeType

-- `INT_MAX`
abbrev pub int_max : ℕ
int_max = 2 ^ 31 - 1

-- src/inthelper.c
unfoldable pub cap_size_t_to_int : ℕ → ℤ
cap_size_t_to_int val = if ltb int_max val then pos int_max else pos val

unfoldable pub size_t_to_int : ℕ → ℤ
size_t_to_int val = if ltb int_max val then negsuc 0 else pos val
