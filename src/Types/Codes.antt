-- ===== src/Types/Codes.antt =====
-- ARTErrorCode of Source/include/Ably/ARTStatus.h: the public error codes, and errors created from a
-- code (Source/ARTStatus.m).
use ably_cocoa.Base.{ℕ, ◌/◌, Text, pos}
use ably_cocoa.Types.{ErrorInfo}

-- ARTErrorCode
pub data ErrorCode : Type 0 where
  no_error bad_request invalid_request_body invalid_parameter_name : ErrorCode
  invalid_parameter_value invalid_header invalid_credential invalid_connection_id : ErrorCode
  invalid_message_id invalid_content_length max_message_length_exceeded : ErrorCode
  invalid_channel_name stale_ring_state invalid_client_id : ErrorCode
  invalid_message_data_or_encoding resource_disposed invalid_device_id : ErrorCode
  invalid_message_name unsupported_protocol_version unable_to_decode_message : ErrorCode
  batch_error invalid_publish_request invalid_client reserved_for_testing unauthorized : ErrorCode
  invalid_credentials incompatible_credentials : ErrorCode
  invalid_use_of_basic_auth_over_non_tls_transport timestamp_not_current : ErrorCode
  nonce_value_replayed unable_to_obtain_credentials account_disabled : ErrorCode
  account_connection_limits_exceeded account_message_limits_exceeded account_blocked : ErrorCode
  account_channel_limits_exceeded application_disabled key_error_unspecified : ErrorCode
  key_revoked key_expired key_disabled token_error_unspecified token_revoked : ErrorCode
  token_expired token_unrecognised invalid_jwt_format invalid_token_format : ErrorCode
  connection_limits_exceeded operation_not_permitted_with_provided_capability : ErrorCode
  operation_not_permitted_as_it_requires_an_identified_client : ErrorCode
  error_from_client_token_callback no_means_provided_to_renew_auth_token forbidden : ErrorCode
  account_does_not_permit_tls_connection operation_requires_tls_connection : ErrorCode
  application_requires_authentication unable_to_activate_account_unspecified : ErrorCode
  unable_to_activate_account_incompatible_environment : ErrorCode
  unable_to_activate_account_incompatible_site not_found method_not_allowed : ErrorCode
  rate_limit_exceeded_unspecified max_per_connection_publish_rate_limit_exceeded : ErrorCode
  rate_limit_exceeded_fatal max_per_connection_publish_rate_limit_exceeded_fatal : ErrorCode
  internal_error internal_channel_error internal_connection_error timeout_error : ErrorCode
  request_failed_due_to_overloaded_instance edge_proxy_service_internal_error : ErrorCode
  edge_proxy_service_bad_gateway edge_proxy_service_unavailable_ably_platform : ErrorCode
  traffic_temporarily_redirected_to_backup_service : ErrorCode
  edge_proxy_service_timed_out_waiting_ably_platform reactor_operation_failed : ErrorCode
  reactor_post_operation_failed reactor_post_operation_returned_unexpected_code : ErrorCode
  reactor_max_number_of_concurrent_requests_exceeded : ErrorCode
  reactor_invalid_or_unaccepted_message_contents exchange_error_unspecified : ErrorCode
  forced_re_attachment_due_to_permissions_change exchange_publisher_error_unspecified : ErrorCode
  no_such_publisher publisher_not_enabled_as_an_exchange_publisher : ErrorCode
  exchange_product_error_unspecified no_such_product product_disabled : ErrorCode
  no_such_channel_in_this_product forced_re_attachment_due_to_remapped : ErrorCode
  exchange_subscription_error_unspecified subscription_disabled : ErrorCode
  requester_has_no_subscription_to_this_product : ErrorCode
  channel_does_not_match_the_channel_filter connection_failed : ErrorCode
  connection_failed_no_compatible_transport connection_suspended disconnected : ErrorCode
  already_connected invalid_connection_id_remote_not_found : ErrorCode
  unable_to_recover_connection_messages_expired : ErrorCode
  unable_to_recover_connection_message_limit_exceeded : ErrorCode
  unable_to_recover_connection_expired connection_not_established_no_transport_handle : ErrorCode
  invalid_transport_handle unable_to_recover_connection_incompatible_auth_params : ErrorCode
  unable_to_recover_connection_invalid_connection_serial protocol_error : ErrorCode
  connection_timed_out incompatible_connection_parameters : ErrorCode
  operation_on_superseded_connection connection_closed : ErrorCode
  invalid_connection_id_invalid_format auth_configured_provider_failure : ErrorCode
  continuity_loss_due_to_max_subscribe_message_rate_exceeded : ErrorCode
  client_restriction_not_satisfied channel_operation_failed : ErrorCode
  channel_operation_failed_invalid_state channel_operation_failed_epoch_expired : ErrorCode
  unable_to_recover_channel_messages_expired : ErrorCode
  unable_to_recover_channel_message_limit_exceeded : ErrorCode
  unable_to_recover_channel_no_matching_epoch : ErrorCode
  unable_to_recover_channel_unbounded_request : ErrorCode
  channel_operation_failed_no_response_from_server : ErrorCode
  max_number_of_channels_per_connection_exceeded : ErrorCode
  unable_to_enter_presence_channel_no_clientid : ErrorCode
  unable_to_enter_presence_channel_invalid_state : ErrorCode
  unable_to_leave_presence_channel_that_is_not_entered : ErrorCode
  unable_to_enter_presence_channel_max_member_limit_exceeded : ErrorCode
  unable_to_automatically_re_enter_presence_channel presence_state_is_out_of_sync : ErrorCode
  member_implicitly_left_presence_channel : ErrorCode

-- The number of a code.
abbrev pub error_code : ErrorCode → ℕ
error_code ErrorCode.no_error = 10000
error_code ErrorCode.bad_request = 40000
error_code ErrorCode.invalid_request_body = 40001
error_code ErrorCode.invalid_parameter_name = 40002
error_code ErrorCode.invalid_parameter_value = 40003
error_code ErrorCode.invalid_header = 40004
error_code ErrorCode.invalid_credential = 40005
error_code ErrorCode.invalid_connection_id = 40006
error_code ErrorCode.invalid_message_id = 40007
error_code ErrorCode.invalid_content_length = 40008
error_code ErrorCode.max_message_length_exceeded = 40009
error_code ErrorCode.invalid_channel_name = 40010
error_code ErrorCode.stale_ring_state = 40011
error_code ErrorCode.invalid_client_id = 40012
error_code ErrorCode.invalid_message_data_or_encoding = 40013
error_code ErrorCode.resource_disposed = 40014
error_code ErrorCode.invalid_device_id = 40015
error_code ErrorCode.invalid_message_name = 40016
error_code ErrorCode.unsupported_protocol_version = 40017
error_code ErrorCode.unable_to_decode_message = 40018
error_code ErrorCode.batch_error = 40020
error_code ErrorCode.invalid_publish_request = 40030
error_code ErrorCode.invalid_client = 40031
error_code ErrorCode.reserved_for_testing = 40099
error_code ErrorCode.unauthorized = 40100
error_code ErrorCode.invalid_credentials = 40101
error_code ErrorCode.incompatible_credentials = 40102
error_code ErrorCode.invalid_use_of_basic_auth_over_non_tls_transport = 40103
error_code ErrorCode.timestamp_not_current = 40104
error_code ErrorCode.nonce_value_replayed = 40105
error_code ErrorCode.unable_to_obtain_credentials = 40106
error_code ErrorCode.account_disabled = 40110
error_code ErrorCode.account_connection_limits_exceeded = 40111
error_code ErrorCode.account_message_limits_exceeded = 40112
error_code ErrorCode.account_blocked = 40113
error_code ErrorCode.account_channel_limits_exceeded = 40114
error_code ErrorCode.application_disabled = 40120
error_code ErrorCode.key_error_unspecified = 40130
error_code ErrorCode.key_revoked = 40131
error_code ErrorCode.key_expired = 40132
error_code ErrorCode.key_disabled = 40133
error_code ErrorCode.token_error_unspecified = 40140
error_code ErrorCode.token_revoked = 40141
error_code ErrorCode.token_expired = 40142
error_code ErrorCode.token_unrecognised = 40143
error_code ErrorCode.invalid_jwt_format = 40144
error_code ErrorCode.invalid_token_format = 40145
error_code ErrorCode.connection_limits_exceeded = 40150
error_code ErrorCode.operation_not_permitted_with_provided_capability = 40160
error_code ErrorCode.operation_not_permitted_as_it_requires_an_identified_client = 40161
error_code ErrorCode.error_from_client_token_callback = 40170
error_code ErrorCode.no_means_provided_to_renew_auth_token = 40171
error_code ErrorCode.forbidden = 40300
error_code ErrorCode.account_does_not_permit_tls_connection = 40310
error_code ErrorCode.operation_requires_tls_connection = 40311
error_code ErrorCode.application_requires_authentication = 40320
error_code ErrorCode.unable_to_activate_account_unspecified = 40330
error_code ErrorCode.unable_to_activate_account_incompatible_environment = 40331
error_code ErrorCode.unable_to_activate_account_incompatible_site = 40332
error_code ErrorCode.not_found = 40400
error_code ErrorCode.method_not_allowed = 40500
error_code ErrorCode.rate_limit_exceeded_unspecified = 42910
error_code ErrorCode.max_per_connection_publish_rate_limit_exceeded = 42911
error_code ErrorCode.rate_limit_exceeded_fatal = 42920
error_code ErrorCode.max_per_connection_publish_rate_limit_exceeded_fatal = 42921
error_code ErrorCode.internal_error = 50000
error_code ErrorCode.internal_channel_error = 50001
error_code ErrorCode.internal_connection_error = 50002
error_code ErrorCode.timeout_error = 50003
error_code ErrorCode.request_failed_due_to_overloaded_instance = 50004
error_code ErrorCode.edge_proxy_service_internal_error = 50010
error_code ErrorCode.edge_proxy_service_bad_gateway = 50210
error_code ErrorCode.edge_proxy_service_unavailable_ably_platform = 50310
error_code ErrorCode.traffic_temporarily_redirected_to_backup_service = 50320
error_code ErrorCode.edge_proxy_service_timed_out_waiting_ably_platform = 50410
error_code ErrorCode.reactor_operation_failed = 70000
error_code ErrorCode.reactor_post_operation_failed = 70001
error_code ErrorCode.reactor_post_operation_returned_unexpected_code = 70002
error_code ErrorCode.reactor_max_number_of_concurrent_requests_exceeded = 70003
error_code ErrorCode.reactor_invalid_or_unaccepted_message_contents = 70004
error_code ErrorCode.exchange_error_unspecified = 71000
error_code ErrorCode.forced_re_attachment_due_to_permissions_change = 71001
error_code ErrorCode.exchange_publisher_error_unspecified = 71100
error_code ErrorCode.no_such_publisher = 71101
error_code ErrorCode.publisher_not_enabled_as_an_exchange_publisher = 71102
error_code ErrorCode.exchange_product_error_unspecified = 71200
error_code ErrorCode.no_such_product = 71201
error_code ErrorCode.product_disabled = 71202
error_code ErrorCode.no_such_channel_in_this_product = 71203
error_code ErrorCode.forced_re_attachment_due_to_remapped = 71204
error_code ErrorCode.exchange_subscription_error_unspecified = 71300
error_code ErrorCode.subscription_disabled = 71301
error_code ErrorCode.requester_has_no_subscription_to_this_product = 71302
error_code ErrorCode.channel_does_not_match_the_channel_filter = 71303
error_code ErrorCode.connection_failed = 80000
error_code ErrorCode.connection_failed_no_compatible_transport = 80001
error_code ErrorCode.connection_suspended = 80002
error_code ErrorCode.disconnected = 80003
error_code ErrorCode.already_connected = 80004
error_code ErrorCode.invalid_connection_id_remote_not_found = 80005
error_code ErrorCode.unable_to_recover_connection_messages_expired = 80006
error_code ErrorCode.unable_to_recover_connection_message_limit_exceeded = 80007
error_code ErrorCode.unable_to_recover_connection_expired = 80008
error_code ErrorCode.connection_not_established_no_transport_handle = 80009
error_code ErrorCode.invalid_transport_handle = 80010
error_code ErrorCode.unable_to_recover_connection_incompatible_auth_params = 80011
error_code ErrorCode.unable_to_recover_connection_invalid_connection_serial = 80012
error_code ErrorCode.protocol_error = 80013
error_code ErrorCode.connection_timed_out = 80014
error_code ErrorCode.incompatible_connection_parameters = 80015
error_code ErrorCode.operation_on_superseded_connection = 80016
error_code ErrorCode.connection_closed = 80017
error_code ErrorCode.invalid_connection_id_invalid_format = 80018
error_code ErrorCode.auth_configured_provider_failure = 80019
error_code ErrorCode.continuity_loss_due_to_max_subscribe_message_rate_exceeded = 80020
error_code ErrorCode.client_restriction_not_satisfied = 80030
error_code ErrorCode.channel_operation_failed = 90000
error_code ErrorCode.channel_operation_failed_invalid_state = 90001
error_code ErrorCode.channel_operation_failed_epoch_expired = 90002
error_code ErrorCode.unable_to_recover_channel_messages_expired = 90003
error_code ErrorCode.unable_to_recover_channel_message_limit_exceeded = 90004
error_code ErrorCode.unable_to_recover_channel_no_matching_epoch = 90005
error_code ErrorCode.unable_to_recover_channel_unbounded_request = 90006
error_code ErrorCode.channel_operation_failed_no_response_from_server = 90007
error_code ErrorCode.max_number_of_channels_per_connection_exceeded = 90010
error_code ErrorCode.unable_to_enter_presence_channel_no_clientid = 91000
error_code ErrorCode.unable_to_enter_presence_channel_invalid_state = 91001
error_code ErrorCode.unable_to_leave_presence_channel_that_is_not_entered = 91002
error_code ErrorCode.unable_to_enter_presence_channel_max_member_limit_exceeded = 91003
error_code ErrorCode.unable_to_automatically_re_enter_presence_channel = 91004
error_code ErrorCode.presence_state_is_out_of_sync = 91005
error_code ErrorCode.member_implicitly_left_presence_channel = 91100

-- getStatusFromCode
unfoldable pub get_status_from_code : ℕ → ℕ
get_status_from_code code = code / 100

-- createWithCode:message:
unfoldable pub create_with_code : ℕ → Text → ErrorInfo
unfolding get_status_from_code
create_with_code code message = record {
  code = pos code;
  status_code = pos (get_status_from_code code);
  message = message;
}
