-- ===== src/Mqtt/Errors.antt =====
-- mqtt-common/src/error.rs: what a session and a service fail with, and how a client is told.
use drogue_cloud.Base.{String}

pub data PublishError : Type 0 where
  internal_error : String → PublishError
  quota_exceeded not_authorized unsupported_operation payload_format_invalid : PublishError
  unspecified_error topic_name_invalid protocol_error : PublishError

pub data ServerError : Type 0 where
  internal configuration state_error : String → ServerError
  protocol unsupported authentication_failed unauthorized : ServerError
  publish_error : PublishError → ServerError

-- The reason codes of the v5 codec that are used.
pub data PublishAckReason : Type 0 where
  ack_unspecified ack_implementation_specific ack_not_authorized : PublishAckReason
  ack_quota_exceeded ack_payload_format_invalid ack_topic_name_invalid : PublishAckReason

-- `ack` of a publish: the reason and its code.
unfoldable pub publish_ack : PublishError → String × PublishAckReason
publish_ack (internal_error msg) = (msg, ack_unspecified)
publish_ack unspecified_error = ("Unspecified error", ack_unspecified)
publish_ack unsupported_operation = ("Unsupported operation", ack_implementation_specific)
publish_ack not_authorized = ("Not authorized", ack_not_authorized)
publish_ack quota_exceeded = ("Quota exceeded", ack_quota_exceeded)
publish_ack payload_format_invalid = ("Payload format invalid", ack_payload_format_invalid)
publish_ack topic_name_invalid = ("Topic name is invalid", ack_topic_name_invalid)
publish_ack protocol_error = ("Protocol error", ack_unspecified)
