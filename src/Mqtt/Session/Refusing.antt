-- ===== src/Mqtt/Session/Refusing.antt =====
-- mqtt-endpoint/src/service/session/mod.rs: a session that was disconnected does not publish.

use drogue_cloud.Base.{
  ◌≡◌, ◌≢◌, ◌⊎◌, refl, ◌∙◌, sym, inl, inr, List, [], ◌∷◌, err, arith, Bool-cases, string_eq,
}
use drogue_cloud.Mqtt.Disconnect.{
  Inner, already_disconnected, as_publish_error, connected, disconnected, closed as is_closed,
  disconnect, ensure, Disconnect, on_disconnect, close,
}
use drogue_cloud.Mqtt.Errors.{protocol_error}
use drogue_cloud.Mqtt.Cache.{Lru, Reading}
use drogue_cloud.Mqtt.Session.{
  Services, Outside, Publish, Session, publish, disconnected_by, take_handle, closed,
}
use drogue_cloud.Mqtt.Session.Calls.{
  Call, publishes, subscribes, unsubscribes, disconnects, closes, Live, step, run,
}
use drogue_cloud.Mqtt.Session.Same.{
  publish-IsSame, subscribe-IsSame, unsubscribe-IsSame, disconnected_by_lem,
}

on_disconnect_ended : (inner : Inner) (d : Disconnect) → (on_disconnect inner d).1 ≢ connected
unfolding on_disconnect disconnect
on_disconnect_ended connected d is = absurd (ground (arith, is))
on_disconnect_ended (disconnected skip) d is = absurd (ground (arith, is))
on_disconnect_ended (is_closed skip) d is = absurd (ground (arith, is))

close_ended : (inner : Inner) → (close inner).1 ≢ connected
unfolding close
close_ended connected is = absurd (ground (arith, is))
close_ended (disconnected skip) is = absurd (ground (arith, is))
close_ended (is_closed skip) is = absurd (ground (arith, is))

ensure_lem : (inner : Inner) → inner ≢ connected → ensure inner ≡ err already_disconnected
unfolding ensure
ensure_lem connected ended = absurd (ended refl)
ensure_lem (disconnected skip) ended = refl
ensure_lem (is_closed skip) ended = refl

module _ {World T : Type 0} (lru : Lru T) (services : Services World T) where
  disconnected_by_ended :
      (s : Session lru services) (o : Outside World) (message : Disconnect)
      → (disconnected_by lru services (s, o) message).1.0.disconnect ≢ connected
  disconnected_by_ended s o message =
      rw (disconnected_by_lem lru services s o message) (on_disconnect_ended s.disconnect message)

  closed_ended :
      (s : Session lru services) (o : Outside World)
      → (closed lru services (s, o)).0.disconnect ≢ connected
  unfolding closed take_handle
  closed_ended s o = elim (Bool-cases s.has_handle) [
    | inl p ↦ rw (closed, take_handle, p) (close_ended s.disconnect)
    | inr p ↦ rw (closed, take_handle, p) (close_ended s.disconnect)
  ]

  step_ended :
      (state : Live lru services) (call : Call)
      → state.0.disconnect ≢ connected
      → (step lru services state call).0.disconnect ≢ connected
  unfolding step closed take_handle
  step_ended state (publishes message r) ended =
      let same = publish-IsSame lru services state message r in
      λ is. ended (sym same.disconnect ∙ is)
  step_ended state (subscribes id topics) ended =
      let same = subscribe-IsSame lru services state id topics in
      λ is. ended (sym same.disconnect ∙ is)
  step_ended state (unsubscribes topics) ended =
      let same = unsubscribe-IsSame lru services state topics in
      λ is. ended (sym same.disconnect ∙ is)
  step_ended (s, o) (disconnects message) ended = disconnected_by_ended s o message
  step_ended (s, o) closes ended = closed_ended s o

  run_ended :
      (state : Live lru services) (calls : List Call)
      → state.0.disconnect ≢ connected
      → (run lru services state calls).0.disconnect ≢ connected
  unfolding run
  run_ended state [] ended = ended
  run_ended state (call ∷ calls) ended =
      run_ended (step lru services state call) calls (step_ended state call ended)

  publish_ended :
      (s : Session lru services) (o : Outside World) (message : Publish) (r : Reading)
      → s.disconnect ≢ connected
      → publish lru services (s, o) message r ≡ (err protocol_error, (s, o))
  unfolding publish as_publish_error
  publish_ended s o message r ended = rw (publish, ensure_lem s.disconnect ended) refl

  -- After a disconnect or a close, and whatever calls, a publish is refused as a protocol error. It
  -- asks nothing of the services and changes nothing.
  publish-run_ended :
      (state : Live lru services) (last : Call) (calls : List Call) (message : Publish)
      (r : Reading)
      → ((d : Disconnect) × (last ≡ disconnects d)) ⊎ (last ≡ closes)
      → let left = run lru services state (last ∷ calls) in
        publish lru services left message r ≡ (err protocol_error, left)
  unfolding run step
  publish-run_ended (s, o) last calls message r ends =
      let next = step lru services (s, o) last in
      let left = run lru services next calls in
      publish_ended left.0 left.1 message r (
        run_ended next calls (elim ends [
          | inl (d, is) ↦ rw is (disconnected_by_ended s o d)
          | inr is ↦ rw is (closed_ended s o)
        ]))
