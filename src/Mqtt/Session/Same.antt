-- ===== src/Mqtt/Session/Same.antt =====
-- mqtt-endpoint/src/service/session/mod.rs: the calls that do not end a session.

use drogue_cloud.Base.{
  ℕ, String, ◌≡◌, refl, ◌∙◌, inl, inr, List, [], ◌∷◌, Option, none, some, Option-cases,
  Result-cases, string_eq,
}
use drogue_cloud.HashMap.{get, remove}
use drogue_cloud.Mqtt.Dialect.{parse_subscribe}
use drogue_cloud.Mqtt.Disconnect.{Disconnect, on_disconnect}
use drogue_cloud.Mqtt.Cache.{Lru, Reading}
use drogue_cloud.Mqtt.Session.{
  Services, Outside, Publish, Session, open_inbox, close_inbox, subscribe_inbox, publish,
  subscribe_one, subscribe_each, subscribe, unsubscribe, disconnected_by,
}
use drogue_cloud.Mqtt.Session.Calls.{deletions, Live, publish-IsQuiet}

module _ {World T : Type 0} (lru : Lru T) (services : Services World T) where
  -- Whether a state of the device is left, and what was asked about it.
  pub record IsSame (before after : Live lru services) : Type 0 where
    pub has_handle : after.0.has_handle ≡ before.0.has_handle
    pub disconnect : after.0.disconnect ≡ before.0.disconnect
    pub all_deleted : deletions after.1.requests ≡ deletions before.1.requests

  IsSame-refl : (state : Live lru services) → IsSame state state
  IsSame-refl state = record { has_handle = refl; disconnect = refl; all_deleted = refl }

  IsSame-trans : {a b c : Live lru services} → IsSame a b → IsSame b c → IsSame a c
  IsSame-trans h k = record {
    has_handle = k.has_handle ∙ h.has_handle;
    disconnect = k.disconnect ∙ h.disconnect;
    all_deleted = k.all_deleted ∙ h.all_deleted;
  }

  subscribe_one-IsSame :
      (s : Session lru services) (o : Outside World) (topic : String)
      → IsSame (s, o) (subscribe_one lru services (s, o) topic).1
  unfolding subscribe_one subscribe_inbox open_inbox
  subscribe_one-IsSame s o topic =
      let same = IsSame-refl (s, o) in
      elim (Result-cases (parse_subscribe s.dialect topic)) [
        | inr (_, e) ↦ rw (subscribe_one, e) same
        | inl (parsed, e) ↦ elim (Option-cases (get topic s.inbox_reader)) [
          | inl f ↦
              rw (subscribe_one, e, subscribe_inbox, f)
                (record { has_handle = refl; disconnect = refl; all_deleted = refl })
          | inr (_, f) ↦ rw (subscribe_one, e, subscribe_inbox, f) same
        ]
      ]

  subscribe_each-IsSame :
      (state : Live lru services) (topics : List String)
      → IsSame state (subscribe_each lru services state topics).1
  unfolding subscribe_each
  subscribe_each-IsSame state [] = IsSame-refl state
  subscribe_each-IsSame (s, o) (topic ∷ topics) =
      let next = (subscribe_one lru services (s, o) topic).1 in
      IsSame-trans (subscribe_one-IsSame s o topic) (subscribe_each-IsSame next topics)

  pub unsubscribe-IsSame :
      (state : Live lru services) (topics : List String)
      → IsSame state (unsubscribe lru services state topics).1
  unfolding unsubscribe close_inbox
  unsubscribe-IsSame state [] = IsSame-refl state
  unsubscribe-IsSame (s, o) (topic ∷ topics) = elim (Option-cases (get topic s.inbox_reader)) [
    | inl e ↦ rw (unsubscribe, e) (unsubscribe-IsSame (s, o) topics)
    | inr (inbox, e) ↦
        let next : Live lru services = (
          record s { inbox_reader = remove topic s.inbox_reader },
          close_inbox lru services o inbox,
        ) in
        let rest = unsubscribe-IsSame next topics in
        rw (unsubscribe, e)
          (record {
            has_handle = rest.has_handle;
            disconnect = rest.disconnect;
            all_deleted = rest.all_deleted;
          })
  ]

  pub publish-IsSame :
      (state : Live lru services) (message : Publish) (r : Reading)
      → IsSame state (publish lru services state message r).1
  publish-IsSame (s, o) message r =
      let q = publish-IsQuiet lru services s o message r in
      record { has_handle = q.has_handle; disconnect = q.disconnect; all_deleted = q.all_deleted }

  pub subscribe-IsSame :
      (state : Live lru services) (id : Option ℕ) (topics : List String)
      → IsSame state (subscribe lru services state id topics).1
  unfolding subscribe
  subscribe-IsSame state none topics = subscribe_each-IsSame state topics
  subscribe-IsSame state (some id) topics = IsSame-refl state

  pub disconnected_by_lem :
      (s : Session lru services) (o : Outside World) (message : Disconnect)
      → (disconnected_by lru services (s, o) message).1
        ≡ (record s { disconnect = (on_disconnect s.disconnect message).1 }, o)
  unfolding disconnected_by
  disconnected_by_lem s o message = elim (Result-cases (on_disconnect s.disconnect message).0) [
    | inl (_, e) ↦ rw (disconnected_by, e) refl
    | inr (_, e) ↦ rw (disconnected_by, e) refl
  ]
