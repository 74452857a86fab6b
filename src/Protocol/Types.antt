-- ===== src/Protocol/Types.antt =====
-- engine/protocol/src/lib.rs: the constants, the requests, the responses and the codec's errors.
use loofi_face_id.Prelude.{ℕ, ◌+◌, ◌*◌}

abbrev pub protocol_version : ℕ
protocol_version = 2

abbrev pub max_request_bytes : ℕ
max_request_bytes = 4 * 1024

abbrev pub max_response_bytes : ℕ
max_response_bytes = 16 * 1024

-- `1 << 0 | 1 << 1`, where the two bits are apart.
abbrev pub operations_all : ℕ
operations_all = 1 + 2

abbrev pub request_capabilities : ℕ
request_capabilities = 1

abbrev pub request_status : ℕ
request_status = 2

abbrev pub response_capabilities : ℕ
response_capabilities = 0x81

abbrev pub response_status : ℕ
response_status = 0x82

abbrev pub response_error : ℕ
response_error = 0xff

pub data Request : Type 0 where
  capabilities status : Request

pub data OperationSupport : Type 0 where
  unsupported supported : OperationSupport

pub data DisabledCapability : Type 0 where
  disabled : DisabledCapability

pub data EngineState : Type 0 where
  ready : EngineState

pub record Capabilities : Type 0 where
  pub protocol_min : ℕ  -- u16
  pub protocol_max : ℕ  -- u16
  pub max_request : ℕ  -- u32
  pub max_response : ℕ  -- u32
  pub operations : ℕ  -- u16
  pub detector_analysis : OperationSupport
  pub embedding_extraction : OperationSupport
  pub user_session_enrollment : OperationSupport
  pub encrypted_user_session_persistence : OperationSupport
  pub explicit_local_verification : OperationSupport
  pub profile_deletion : OperationSupport
  pub pam_authentication : OperationSupport
  pub pam_configuration : OperationSupport
  pub authselect : OperationSupport
  pub sddm_lock_screen : OperationSupport
  pub sudo_polkit : OperationSupport
  pub liveness : OperationSupport
  pub security_tiers : OperationSupport
  pub privileged_services : OperationSupport
  pub network_access : DisabledCapability
  pub runtime_model_downloads : DisabledCapability

pub record Status : Type 0 where
  pub state : EngineState
  pub detector_analysis : OperationSupport
  pub embedding_extraction : OperationSupport
  pub user_session_enrollment : OperationSupport
  pub encrypted_user_session_persistence : OperationSupport
  pub explicit_local_verification : OperationSupport
  pub profile_deletion : OperationSupport
  pub pam_authentication : OperationSupport
  pub pam_configuration : OperationSupport
  pub authselect : OperationSupport
  pub sddm_lock_screen : OperationSupport
  pub sudo_polkit : OperationSupport
  pub liveness : OperationSupport
  pub security_tiers : OperationSupport
  pub privileged_services : OperationSupport

-- `Capabilities::local_identity`
unfoldable pub local_capabilities : Capabilities
local_capabilities = record {
  protocol_min = protocol_version;
  protocol_max = protocol_version;
  max_request = max_request_bytes;
  max_response = max_response_bytes;
  operations = operations_all;
  detector_analysis = supported;
  embedding_extraction = supported;
  user_session_enrollment = supported;
  encrypted_user_session_persistence = supported;
  explicit_local_verification = supported;
  profile_deletion = supported;
  pam_authentication = unsupported;
  pam_configuration = unsupported;
  authselect = unsupported;
  sddm_lock_screen = unsupported;
  sudo_polkit = unsupported;
  liveness = supported;
  security_tiers = unsupported;
  privileged_services = unsupported;
  network_access = disabled;
  runtime_model_downloads = disabled;
}

-- `Status::local_identity`
unfoldable pub local_status : Status
local_status = record {
  state = ready;
  detector_analysis = supported;
  embedding_extraction = supported;
  user_session_enrollment = supported;
  encrypted_user_session_persistence = supported;
  explicit_local_verification = supported;
  profile_deletion = supported;
  pam_authentication = unsupported;
  pam_configuration = unsupported;
  authselect = unsupported;
  sddm_lock_screen = unsupported;
  sudo_polkit = unsupported;
  liveness = supported;
  security_tiers = unsupported;
  privileged_services = unsupported;
}

pub data ErrorCode : Type 0 where
  invalid_request unsupported_version unsupported_operation : ErrorCode

pub data Response : Type 0 where
  capabilities : Capabilities → Response
  status : Status → Response
  error : ErrorCode → Response

-- `CodecError`. Its `Io` case is never made by the codec's own functions.
pub data CodecError : Type 0 where
  io : CodecError
  empty_frame : CodecError
  frame_too_large : (length maximum : ℕ) → CodecError
  invalid_payload : CodecError
  unsupported_version : ℕ → CodecError
