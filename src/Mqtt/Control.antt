-- ===== src/Mqtt/Control.antt =====
-- mqtt-common/src/mqtt.rs: `control_v3` and `control_v5`, which hand the control messages of a
-- connection to its session.
use drogue_cloud.Base.{
  ℕ, String, ◌≡◌, refl, List, [], ◌∷◌, Option, none, Result, ok, err, Result-cases, inl, inr,
}
use drogue_cloud.Mqtt.Errors.{ServerError, protocol}
use drogue_cloud.Mqtt.Disconnect.{Disconnect}
use drogue_cloud.Mqtt.Cache.{Lru}
use drogue_cloud.Mqtt.Session.{Services, Ack, subscribe, unsubscribe, disconnected_by, closed}
use drogue_cloud.Mqtt.Session.Calls.{
  Call, subscribes, unsubscribes, disconnects, closes, Live, step, run,
}

-- The messages that both versions have.
pub data Control : Type 0 where
  protocol_violation ping peer_gone connection_closed : Control
  service_error : ServerError → Control
  disconnect_by : Disconnect → Control
  subscribe_to : Option ℕ → List String → Control
  unsubscribe_from : List String → Control

pub data ControlV5 : Type 0 where
  auth : ControlV5
  shared : Control → ControlV5

pub data Reply : Type 0 where
  plain_ack auth_ack protocol_error_ack unspecified_error_ack : Reply
  subscribe_ack unsubscribe_ack : List Ack → Reply

abbrev pub error_ack : ServerError → Reply
error_ack protocol = protocol_error_ack
error_ack e = unspecified_error_ack

module _ {World T : Type 0} (lru : Lru T) (services : Services World T) where
  -- `closed` of a session never fails.
  unfoldable pub control_v3 :
      Live lru services → Control → Result ServerError Reply × Live lru services
  control_v3 state (service_error e) = (ok plain_ack, state)
  control_v3 state protocol_violation = (ok plain_ack, state)
  control_v3 state ping = (ok plain_ack, state)
  control_v3 state (disconnect_by message) =
      let r = disconnected_by lru services state message in
      elim r.0 [ ok _ ↦ (ok plain_ack, r.1) | err e ↦ (err e, r.1) ]
  control_v3 state peer_gone = (ok plain_ack, closed lru services state)
  control_v3 state (subscribe_to id topics) =
      let r = subscribe lru services state none topics in (ok (subscribe_ack r.0), r.1)
  control_v3 state (unsubscribe_from topics) =
      let r = unsubscribe lru services state topics in (ok plain_ack, r.1)
  control_v3 state connection_closed = (ok plain_ack, closed lru services state)

  unfoldable pub control_v5 :
      Live lru services → ControlV5 → Result ServerError Reply × Live lru services
  control_v5 state auth = (ok auth_ack, state)
  control_v5 state (shared (service_error e)) = (ok (error_ack e), state)
  control_v5 state (shared protocol_violation) = (ok plain_ack, state)
  control_v5 state (shared ping) = (ok plain_ack, state)
  control_v5 state (shared (disconnect_by message)) =
      let r = disconnected_by lru services state message in
      elim r.0 [ ok _ ↦ (ok plain_ack, r.1) | err e ↦ (err e, r.1) ]
  control_v5 state (shared peer_gone) = (ok plain_ack, closed lru services state)
  control_v5 state (shared (subscribe_to id topics)) =
      let r = subscribe lru services state id topics in (ok (subscribe_ack r.0), r.1)
  control_v5 state (shared (unsubscribe_from topics)) =
      let r = unsubscribe lru services state topics in (ok (unsubscribe_ack r.0), r.1)
  control_v5 state (shared connection_closed) = (ok plain_ack, closed lru services state)

  -- The calls of the session that messages are.
  abbrev pub calls_of : List Control → List Call
  calls_of [] = []
  calls_of (disconnect_by message ∷ rest) = disconnects message ∷ calls_of rest
  calls_of (peer_gone ∷ rest) = closes ∷ calls_of rest
  calls_of (connection_closed ∷ rest) = closes ∷ calls_of rest
  calls_of (subscribe_to id topics ∷ rest) = subscribes none topics ∷ calls_of rest
  calls_of (unsubscribe_from topics ∷ rest) = unsubscribes topics ∷ calls_of rest
  calls_of (message ∷ rest) = calls_of rest

  abbrev pub all_v3 : Live lru services → List Control → Live lru services
  all_v3 state [] = state
  all_v3 state (message ∷ rest) = all_v3 (control_v3 state message).1 rest

  -- The messages of a v3 connection, whose subscriptions have no identifier, are the calls of its
  -- session, in their order.
  control_v3-run :
      (messages : List Control) (state : Live lru services)
      → all_v3 state messages ≡ run lru services state (calls_of messages)
  unfolding control_v3 run step
  control_v3-run [] state = refl
  control_v3-run (service_error e ∷ rest) state = control_v3-run rest state
  control_v3-run (protocol_violation ∷ rest) state = control_v3-run rest state
  control_v3-run (ping ∷ rest) state = control_v3-run rest state
  control_v3-run (disconnect_by message ∷ rest) state =
      let r = disconnected_by lru services state message in
      elim (Result-cases r.0) [
        | inl (_, e) ↦ rw (control_v3, e) (control_v3-run rest r.1)
        | inr (_, e) ↦ rw (control_v3, e) (control_v3-run rest r.1)
      ]
  control_v3-run (peer_gone ∷ rest) state = control_v3-run rest (closed lru services state)
  control_v3-run (connection_closed ∷ rest) state = control_v3-run rest (closed lru services state)
  control_v3-run (subscribe_to id topics ∷ rest) state =
      control_v3-run rest (subscribe lru services state none topics).1
  control_v3-run (unsubscribe_from topics ∷ rest) state =
      control_v3-run rest (unsubscribe lru services state topics).1
