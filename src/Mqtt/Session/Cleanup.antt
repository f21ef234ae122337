-- ===== src/Mqtt/Session/Cleanup.antt =====
-- mqtt-endpoint/src/service/session/mod.rs: what is left of a session when it ends, after any calls.
use mathlib.Core.List.{Perm, perm_middle, append-nil}
use mathlib.Core.List.Perm
use drogue_cloud.Base.{
  String, ◌≡◌, inl, inr, Bool, false, List, [], ◌∷◌, ◌++◌, none, some, map, Bool-cases,
  Option-cases, Result-cases, string_eq,
}
use drogue_cloud.HashMap.{HashMap, get, insert, remove, remove_absent}
use drogue_cloud.HashMap.Unique.{IsUnique, insert-IsUnique, remove-IsUnique, remove-perm}
use drogue_cloud.Command.{DeviceId, CommandFilter}
use drogue_cloud.Command.Registry.{SubscriptionHandle}
use drogue_cloud.Mqtt.Dialect.{MqttDialect, TopicEncoder, parse_subscribe, into_command_filter}
use drogue_cloud.Mqtt.Disconnect.{on_disconnect, close}
use drogue_cloud.Mqtt.Cache.{Lru, Reading, DeviceCache}
use drogue_cloud.Mqtt.Session.{
  Services, Outside, InboxSubscription, Publish, Session, new, open_inbox, close_inbox, close_all,
  subscribe_inbox, publish, subscribe_one, subscribe_each, subscribe, unsubscribe, disconnected_by,
  take_handle, closed, drop,
}
use drogue_cloud.Mqtt.Session.Calls.{
  Call, publishes, subscribes, unsubscribes, disconnects, closes, opened_in, shut_in, Live, step,
  run, publish-IsQuiet,
}

module _ {World T : Type 0} (lru : Lru T) (services : Services World T) where
  abbrev pub handles : HashMap String InboxSubscription → List SubscriptionHandle
  handles = map (λ (entry : String × InboxSubscription). entry.1.handle)

  -- Every subscription was unsubscribed, or is an inbox.
  abbrev Balanced : Live lru services → Type 0
  Balanced (s, o) =
      IsUnique s.inbox_reader
      × Perm (opened_in o.requests) (shut_in o.requests ++ handles s.inbox_reader)

  handles-remove :
      (topic : String) (m : HashMap String InboxSubscription) (inbox : InboxSubscription)
      → IsUnique m
      → get topic m ≡ some inbox
      → Perm (handles m) (inbox.handle ∷ handles (remove topic m))
  handles-remove topic m inbox unique e = Perm.map _ (remove-perm topic m inbox unique e)

  close_all-Perm :
      (o : Outside World) (entries : HashMap String InboxSubscription)
      → Perm (opened_in o.requests) (shut_in o.requests ++ handles entries)
      → Perm
          (opened_in (close_all lru services o entries).requests)
          (shut_in (close_all lru services o entries).requests)
  unfolding close_all close_inbox
  close_all-Perm o [] h = rw append-nil at h
  close_all-Perm o (entry ∷ entries) h =
      close_all-Perm (close_inbox lru services o entry.1) entries
        (Perm.trans h (perm_middle (shut_in o.requests) (handles entries)))

  subscribe_inbox-Balanced :
      (s : Session lru services) (o : Outside World) (topic : String) (filter : CommandFilter)
      (encoder : TopicEncoder)
      → Balanced (s, o)
      → Balanced (subscribe_inbox lru services (s, o) topic filter encoder)
  unfolding subscribe_inbox open_inbox insert
  subscribe_inbox-Balanced s o topic filter encoder (unique, even) =
      elim (Option-cases (get topic s.inbox_reader)) [
        | inr (_, e) ↦ rw (subscribe_inbox, e) (unique, even)
        | inl e ↦
            let r = open_inbox lru services o filter encoder in
            rw (subscribe_inbox, e)
              (
                insert-IsUnique topic r.0 s.inbox_reader unique,
                rw (insert, remove_absent topic s.inbox_reader e)
                    (Perm.trans (Perm.cons r.0.handle even)
                      (Perm.symm (perm_middle (shut_in o.requests) (handles s.inbox_reader)))),
              )
      ]

  subscribe_each-Balanced :
      (state : Live lru services) (topics : List String)
      → Balanced state
      → Balanced (subscribe_each lru services state topics).1
  unfolding subscribe_each subscribe_one
  subscribe_each-Balanced state [] h = h
  subscribe_each-Balanced (s, o) (topic ∷ topics) h =
      subscribe_each-Balanced (subscribe_one lru services (s, o) topic).1 topics
        (elim (Result-cases (parse_subscribe s.dialect topic)) [
          | inl (parsed, e) ↦
              rw (subscribe_one, e)
                (subscribe_inbox-Balanced s o topic (into_command_filter parsed.filter s.id)
                  parsed.encoder h)
          | inr (_, e) ↦ rw (subscribe_one, e) h
        ])

  unsubscribe-Balanced :
      (state : Live lru services) (topics : List String)
      → Balanced state
      → Balanced (unsubscribe lru services state topics).1
  unfolding unsubscribe close_inbox
  unsubscribe-Balanced state [] h = h
  unsubscribe-Balanced (s, o) (topic ∷ topics) (unique, even) =
      elim (Option-cases (get topic s.inbox_reader)) [
        | inl e ↦ rw (unsubscribe, e) (unsubscribe-Balanced (s, o) topics (unique, even))
        | inr (inbox, e) ↦
            rw (unsubscribe, e)
              (unsubscribe-Balanced
                (
                  record s { inbox_reader = remove topic s.inbox_reader },
                  close_inbox lru services o inbox,
                )
                topics
                (
                  remove-IsUnique topic s.inbox_reader unique,
                  Perm.trans even (
                      Perm.trans
                        (Perm.append_left (shut_in o.requests)
                          (handles-remove topic s.inbox_reader inbox unique e))
                        (perm_middle (shut_in o.requests) (handles (remove topic s.inbox_reader)))),
                ))
      ]

  publish-Balanced :
      (s : Session lru services) (o : Outside World) (message : Publish) (r : Reading)
      → Balanced (s, o)
      → Balanced (publish lru services (s, o) message r).1
  publish-Balanced s o message r h =
      let q = publish-IsQuiet lru services s o message r in
      rw (q.inboxes, q.all_opened, q.all_shut) h

  take_handle-Balanced :
      (s : Session lru services) (o : Outside World) (skip_lwt : Bool)
      → Balanced (s, o)
      → Balanced (take_handle lru services (s, o) skip_lwt)
  unfolding take_handle
  take_handle-Balanced s o skip_lwt h = elim (Bool-cases s.has_handle) [
    | inl p ↦ rw (take_handle, p) h
    | inr p ↦ rw (take_handle, p) h
  ]

  step-Balanced :
      (state : Live lru services) (call : Call)
      → Balanced state
      → Balanced (step lru services state call)
  unfolding step subscribe disconnected_by closed
  step-Balanced state (publishes message r) h = publish-Balanced state.0 state.1 message r h
  step-Balanced state (subscribes none topics) h = subscribe_each-Balanced state topics h
  step-Balanced state (subscribes (some id) topics) h = h
  step-Balanced state (unsubscribes topics) h = unsubscribe-Balanced state topics h
  step-Balanced (s, o) (disconnects message) h =
      elim (Result-cases (on_disconnect s.disconnect message).0) [
        | inl (_, e) ↦ rw (step, disconnected_by, e) h
        | inr (_, e) ↦ rw (step, disconnected_by, e) h
      ]
  step-Balanced (s, o) closes h =
      let left : Session lru services = record s { disconnect = (close s.disconnect).1 } in
      let taken = take_handle lru services (left, o) (close s.disconnect).0 in
      let even = take_handle-Balanced left o (close s.disconnect).0 h in
      (tt, rw append-nil (close_all-Perm taken.1 taken.0.inbox_reader even.1))

  run-Balanced :
      (state : Live lru services) (calls : List Call)
      → Balanced state
      → Balanced (run lru services state calls)
  unfolding run
  run-Balanced state [] h = h
  run-Balanced state (call ∷ calls) h =
      run-Balanced (step lru services state call) calls (step-Balanced state call h)

  -- After any calls, when the session is gone, every subscription to commands that it made has been
  -- unsubscribed, once.
  pub drop_unsubscribes :
      (dialect : MqttDialect) (id : DeviceId) (device : T) (cache : DeviceCache lru) (world : World)
      (calls : List Call)
      → let start = new lru services dialect id device cache in
        let end =
          drop lru services
            (run lru services (start, record { world = world; requests = [] }) calls) in
        Perm (opened_in end.requests) (shut_in end.requests)
  unfolding drop new
  drop_unsubscribes dialect id device cache world calls =
      let start = new lru services dialect id device cache in
      let left =
        run-Balanced (start, record { world = world; requests = [] }) calls (tt, Perm.rfl) in
      let last = run lru services (start, record { world = world; requests = [] }) calls in
      let taken = take_handle lru services last false in
      close_all-Perm taken.1 taken.0.inbox_reader (take_handle-Balanced last.0 last.1 false left).1
