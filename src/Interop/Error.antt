-- ===== src/Interop/Error.antt =====
-- crates/aion-trust-interop/src/error.rs: the error type, without its texts.
use aion_trust.Encoding.Hex.{TrustError}

pub data InteropError : Type 0 where
  missing_field wrong_type did_key rfc3339 did_binding unresolved_issuer json_error verify_error :
      InteropError
  trust : TrustError → InteropError
