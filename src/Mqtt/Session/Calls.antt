-- ===== src/Mqtt/Session/Calls.antt =====
-- mqtt-endpoint/src/service/session/mod.rs: the calls of a session, in any order, and what is asked
-- of the services.

use drogue_cloud.Base.{
  ℕ, String, ◌≡◌, refl, inl, inr, Bool, List, [], ◌∷◌, Option, Bool-cases, Option-cases,
  Result-cases, string_eq, ◌==◌,
}
use drogue_cloud.Command.Registry.{SubscriptionHandle}
use drogue_cloud.Mqtt.Dialect.{parse_publish}
use drogue_cloud.Mqtt.Disconnect.{ensure, Disconnect}
use drogue_cloud.Mqtt.Cache.{Lru, Reading}
use drogue_cloud.Mqtt.Session.{
  Services, Request, opened, shut, deleted, Outside, Publish, Session, State, publish, eval_device,
  subscribe, unsubscribe, disconnected_by, closed,
}

-- The calls of a session, before it is dropped.
pub data Call : Type 0 where
  publishes : Publish → Reading → Call
  subscribes : Option ℕ → List String → Call
  unsubscribes : List String → Call
  disconnects : Disconnect → Call
  closes : Call

abbrev pub opened_in : List Request → List SubscriptionHandle
opened_in [] = []
opened_in (opened h ∷ made) = h ∷ opened_in made
opened_in (r ∷ made) = opened_in made

abbrev pub shut_in : List Request → List SubscriptionHandle
shut_in [] = []
shut_in (shut h ∷ made) = h ∷ shut_in made
shut_in (r ∷ made) = shut_in made

abbrev pub deletions : List Request → List Bool
deletions [] = []
deletions (deleted skip_lwt ∷ made) = skip_lwt ∷ deletions made
deletions (r ∷ made) = deletions made

module _ {World T : Type 0} (lru : Lru T) (services : Services World T) where
  abbrev pub Live : Type 0
  Live = State lru services

  unfoldable pub step : Live → Call → Live
  unfolding publish subscribe unsubscribe disconnected_by closed
  step state (publishes message r) = (publish lru services state message r).1
  step state (subscribes id topics) = (subscribe lru services state id topics).1
  step state (unsubscribes topics) = (unsubscribe lru services state topics).1
  step state (disconnects message) = (disconnected_by lru services state message).1
  step state closes = closed lru services state

  unfoldable pub run : Live → List Call → Live
  unfolding step
  run state [] = state
  run state (call ∷ calls) = run (step state call) calls

  -- A publish asks nothing that concerns the inboxes or the state of the device.
  pub record IsQuiet (before after : Live) : Type 0 where
    pub inboxes : after.0.inbox_reader ≡ before.0.inbox_reader
    pub has_handle : after.0.has_handle ≡ before.0.has_handle
    pub disconnect : after.0.disconnect ≡ before.0.disconnect
    pub all_opened : opened_in after.1.requests ≡ opened_in before.1.requests
    pub all_shut : shut_in after.1.requests ≡ shut_in before.1.requests
    pub all_deleted : deletions after.1.requests ≡ deletions before.1.requests

  -- Only the cache changes.
  eval_device-cache :
      (s : Session lru services) (o : Outside World) (path : String) (r : Reading)
      → let left = (eval_device lru services (s, o) path r).1 in
        left ≡ record s { device_cache = left.device_cache }
  unfolding eval_device
  eval_device-cache s o path r = elim (Result-cases (parse_publish s.dialect path)) [
    | inr (_, e) ↦ rw (eval_device, e) refl
    | inl (topic, e) ↦ elim (Option-cases topic.device) [
      | inl d ↦ rw (eval_device, e, d) refl
      | inr (device, d) ↦ elim (Bool-cases (device == s.id.device_id)) [
        | inl p ↦ rw (eval_device, e, d, p) refl
        | inr p ↦ rw (eval_device, e, d, p) refl
      ]
    ]
  ]

  pub publish-IsQuiet :
      (s : Session lru services) (o : Outside World) (message : Publish) (r : Reading)
      → IsQuiet (s, o) (publish lru services (s, o) message r).1
  unfolding publish
  publish-IsQuiet s o message r =
      let evaluated = eval_device lru services (s, o) message.topic r in
      let same = eval_device-cache s o message.topic r in
      elim (Result-cases (ensure s.disconnect)) [
        | inr (_, e) ↦
            rw (publish, e)
              (record {
                inboxes = refl;
                has_handle = refl;
                disconnect = refl;
                all_opened = refl;
                all_shut = refl;
                all_deleted = refl;
              })
        | inl (_, e) ↦ elim (Result-cases evaluated.0) [
          | inr (_, f) ↦
              rw (publish, e, f, same)
                (record {
                  inboxes = refl;
                  has_handle = refl;
                  disconnect = refl;
                  all_opened = refl;
                  all_shut = refl;
                  all_deleted = refl;
                })
          | inl ((channel, device), f) ↦
              rw (publish, e, f, same)
                (record {
                  inboxes = refl;
                  has_handle = refl;
                  disconnect = refl;
                  all_opened = refl;
                  all_shut = refl;
                  all_deleted = refl;
                })
        ]
      ]
