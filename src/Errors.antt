-- ===== src/Errors.antt =====
-- rustlib/src/errors.rs: the errors of a connection attempt, and the codes that user interfaces see. The
-- kinds of API errors and the errors of the API's client are a library's, as far as the source
-- tells them apart.
use obscuravpn_client.Prelude.{Option, none, some}

pub data ConnectErrorCode : Type 0 where
  account_expired api_error api_rate_limit_exceeded api_unreachable : ConnectErrorCode
  invalid_account_id no_internet no_longer_supported no_relay : ConnectErrorCode
  no_slots_left not_logged_in other : ConnectErrorCode

pub data ApiErrorKind : Type 0 where
  account_expired_kind invalid_account_id_kind no_longer_supported_kind : ApiErrorKind
  tunnel_limit_exceeded rate_limit_exceeded admin_nnn_case_not_found : ApiErrorKind
  all_friend_codes_claimed already_referred associate_account_conflict : ApiErrorKind
  bad_request ineligible_for_friend_codes ineligible_for_referral : ApiErrorKind
  internal_error invalid_referral_code lightning_top_up_not_found : ApiErrorKind
  misc_unauthorized missing_or_invalid_auth_token monero_top_up_not_found : ApiErrorKind
  no_api_route no_matching_exit nnn_already_submitted nnn_share_not_found : ApiErrorKind
  nnn_submissions_closed nnn_unavailable payload_too_large relay_unavailable : ApiErrorKind
  sale_not_found signup_limit_exceeded wg_key_rotation_required : ApiErrorKind
  unknown : ApiErrorKind

pub data ClientError : Type 0 where
  api_error_body : ApiErrorKind → ClientError
  proof_of_work proof_of_work_timeout request_exec_error : ClientError
  response_too_large invalid_header_value other_client_error protocol_error : ClientError

pub data ApiError : Type 0 where
  api_client : ClientError → ApiError
  api_not_logged_in : ApiError

pub data RelaySelectionError : Type 0 where
  no_success quic_setup udp_setup : RelaySelectionError

pub data TunnelConnectError : Type 0 where
  tunnel_api_error : ApiError → TunnelConnectError
  relay_selection : RelaySelectionError → TunnelConnectError
  config_save invalid_tunnel_id network_config no_exit : TunnelConnectError
  tunnel_no_internet set_os_network_config tunnel_connect : TunnelConnectError
  unexpected_internal_tunnel_lifecycle_state unexpected_relay : TunnelConnectError
  unexpected_tunnel_kind : TunnelConnectError

pub kind_code : ApiErrorKind → ConnectErrorCode
kind_code account_expired_kind = account_expired
kind_code invalid_account_id_kind = invalid_account_id
kind_code no_longer_supported_kind = no_longer_supported
kind_code tunnel_limit_exceeded = no_slots_left
kind_code rate_limit_exceeded = api_rate_limit_exceeded
kind_code _ = api_error

pub client_code : ClientError → ConnectErrorCode
client_code (api_error_body kind) = kind_code kind
client_code proof_of_work = api_rate_limit_exceeded
client_code proof_of_work_timeout = api_rate_limit_exceeded
client_code request_exec_error = api_unreachable
client_code response_too_large = other
client_code invalid_header_value = other
client_code other_client_error = other
client_code protocol_error = other

pub api_code : ApiError → ConnectErrorCode
api_code api_not_logged_in = not_logged_in
api_code (api_client e) = client_code e

-- `ConnectErrorCode::from`.
unfoldable pub connect_error_code : TunnelConnectError → ConnectErrorCode
connect_error_code (tunnel_api_error e) = api_code e
connect_error_code tunnel_no_internet = no_internet
connect_error_code (relay_selection no_success) = no_relay
connect_error_code (relay_selection quic_setup) = other
connect_error_code (relay_selection udp_setup) = other
connect_error_code network_config = other
connect_error_code no_exit = other
connect_error_code set_os_network_config = other
connect_error_code tunnel_connect = other
connect_error_code invalid_tunnel_id = other
connect_error_code unexpected_relay = other
connect_error_code unexpected_tunnel_kind = other
connect_error_code unexpected_internal_tunnel_lifecycle_state = other
connect_error_code config_save = other

-- `ApiError::api_error_kind`.
pub api_error_kind : ApiError → Option ApiErrorKind
api_error_kind (api_client (api_error_body kind)) = some kind
api_error_kind (api_client _) = none
api_error_kind api_not_logged_in = none
