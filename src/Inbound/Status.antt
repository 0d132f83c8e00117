-- ===== src/Inbound/Status.antt =====
-- crates/lore-auth-inbound/src/status.rs: the gRPC status of an error, and the `Display` of an error
-- that it shows.
pub mod Hides
use lore_auth_bridge.Base.{
  String, concat, List, [], ◌∷◌, CoreError, not_found, auth_session_not_found, permission_denied,
  unauthenticated, unsupported, signing_key_unavailable, token_issue_failed, device_invalid_code,
  device_expired_code, device_authorization_not_pending, device_incomplete_authorization,
  invalid_argument, admin_audit_failed,
}

-- The codes of `tonic::Code` that are used.
pub data Code : Type 0 where
  code_not_found code_invalid_argument code_permission_denied : Code
  code_unauthenticated code_unimplemented code_internal : Code

pub record Status : Type 0 where
  pub code : Code
  pub message : String

-- `CoreError::to_string`, by `thiserror`.
unfoldable pub error_text : CoreError → String
error_text not_found = "not found"
error_text auth_session_not_found = "auth session not found"
error_text (invalid_argument text) = concat ("invalid argument: " ∷ text ∷ [])
error_text permission_denied = "permission denied"
error_text unauthenticated = "unauthenticated"
error_text unsupported = "unsupported"
error_text signing_key_unavailable = "signing key unavailable"
error_text token_issue_failed = "token issue failed"
error_text device_invalid_code = "device invalid code"
error_text device_expired_code = "device expired code"
error_text device_authorization_not_pending = "device authorization is not pending"
error_text device_incomplete_authorization = "device incomplete authorization"
error_text (admin_audit_failed text) =
    concat ("operation rolled back because audit logging failed: " ∷ text ∷ [])

unfoldable pub core_error_to_status : CoreError → Status
unfolding error_text
core_error_to_status not_found = record { code = code_not_found; message = "not found" }
core_error_to_status auth_session_not_found = record {
  code = code_not_found;
  message = "not found";
}
core_error_to_status (invalid_argument text) = record {
  code = code_invalid_argument;
  message = text;
}
core_error_to_status permission_denied = record {
  code = code_permission_denied;
  message = "permission denied";
}
core_error_to_status unauthenticated = record {
  code = code_unauthenticated;
  message = "unauthenticated";
}
core_error_to_status unsupported = record { code = code_unimplemented; message = "unsupported" }
core_error_to_status signing_key_unavailable = record {
  code = code_internal;
  message = "token issue failed";
}
core_error_to_status token_issue_failed = record {
  code = code_internal;
  message = "token issue failed";
}
core_error_to_status (admin_audit_failed _) = record {
  code = code_internal;
  message = "admin audit failed";
}
core_error_to_status device_invalid_code = record {
  code = code_invalid_argument;
  message = error_text device_invalid_code;
}
core_error_to_status device_expired_code = record {
  code = code_invalid_argument;
  message = error_text device_expired_code;
}
core_error_to_status device_authorization_not_pending = record {
  code = code_invalid_argument;
  message = error_text device_authorization_not_pending;
}
core_error_to_status device_incomplete_authorization = record {
  code = code_invalid_argument;
  message = error_text device_incomplete_authorization;
}

unfoldable pub auth_session_status : CoreError → Status
unfolding core_error_to_status
auth_session_status auth_session_not_found = record {
  code = code_not_found;
  message = "unknown session";
}
auth_session_status not_found = record { code = code_not_found; message = "unknown session" }
auth_session_status (invalid_argument _) = record {
  code = code_invalid_argument;
  message = "client_state mismatch";
}
auth_session_status signing_key_unavailable = record {
  code = code_internal;
  message = "failed to get auth session";
}
auth_session_status token_issue_failed = record {
  code = code_internal;
  message = "failed to get auth session";
}
auth_session_status other = core_error_to_status other

unfoldable pub resource_token_exchange_status : CoreError → Status
unfolding core_error_to_status
resource_token_exchange_status (invalid_argument _) = record {
  code = code_invalid_argument;
  message = "invalid token exchange request";
}
resource_token_exchange_status not_found = record {
  code = code_permission_denied;
  message = "resource not authorized";
}
resource_token_exchange_status permission_denied = record {
  code = code_permission_denied;
  message = "resource not authorized";
}
resource_token_exchange_status unauthenticated = record {
  code = code_unauthenticated;
  message = "invalid authn token";
}
resource_token_exchange_status signing_key_unavailable = record {
  code = code_internal;
  message = "failed to issue resource token";
}
resource_token_exchange_status token_issue_failed = record {
  code = code_internal;
  message = "failed to issue resource token";
}
resource_token_exchange_status other = core_error_to_status other

unfoldable pub permission_lookup_status : CoreError → Status
unfolding core_error_to_status
permission_lookup_status unauthenticated = record {
  code = code_unauthenticated;
  message = "invalid authn token";
}
permission_lookup_status other = core_error_to_status other
