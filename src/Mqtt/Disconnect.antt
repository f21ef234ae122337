-- ===== src/Mqtt/Disconnect.antt =====
-- mqtt-endpoint/src/service/session/disconnect.rs: whether a session is still connected. The lock
-- that `ensure` returns is held until the publish ends, so a publish is one step here.
use drogue_cloud.Base.{Bool, true, false, Result, ok, err}
use drogue_cloud.Mqtt.Errors.{PublishError, protocol_error, ServerError, protocol}

pub data DisconnectError : Type 0 where
  already_disconnected : DisconnectError

pub data Inner : Type 0 where
  connected : Inner
  disconnected closed : (skip_lwt : Bool) → Inner

-- The two conversions of the error.
unfoldable pub server_error : DisconnectError → ServerError
server_error already_disconnected = protocol

unfoldable pub as_publish_error : DisconnectError → PublishError
as_publish_error already_disconnected = protocol_error

unfoldable pub disconnect : Inner → Bool → Result DisconnectError (Unit {0}) × Inner
disconnect connected skip_lwt = (ok tt, disconnected skip_lwt)
disconnect (disconnected skip) skip_lwt = (err already_disconnected, disconnected skip)
disconnect (closed skip) skip_lwt = (err already_disconnected, closed skip)

unfoldable pub ensure : Inner → Result DisconnectError (Unit {0})
ensure connected = ok tt
ensure (disconnected skip_lwt) = err already_disconnected
ensure (closed skip_lwt) = err already_disconnected

-- `reason_code`: a v3 disconnect is a normal one.
pub data Disconnect : Type 0 where
  v3 : Disconnect
  v5 : (is_normal : Bool) → Disconnect

unfoldable pub is_normal_disconnection : Disconnect → Bool
is_normal_disconnection v3 = true
is_normal_disconnection (v5 is_normal) = is_normal

-- `DisconnectHandle::disconnected`, with `disconnect_with`
unfoldable pub on_disconnect : Inner → Disconnect → Result DisconnectError (Unit {0}) × Inner
unfolding disconnect is_normal_disconnection
on_disconnect inner message = disconnect inner (is_normal_disconnection message)

unfoldable pub close : Inner → Bool × Inner
close connected = (false, closed false)
close (disconnected skip_lwt) = (skip_lwt, closed skip_lwt)
close (closed skip_lwt) = (skip_lwt, closed skip_lwt)
