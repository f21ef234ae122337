-- ===== src/Integration/Reading.antt =====
-- mqtt-integration/src/service/session.rs: whose events a client gets.
use drogue_cloud.Base.{
  Result, Option-cases, Bool, ℕ, String, ◌≡◌, ◌⊎◌, refl, ap, sym, ◌∙◌, Bool, true, false, ◌||◌,
  List, [], ◌∷◌, Option, none, some, ok, arith, Result-cases, Bool-cases, inl, inr, string_eq,
  nat_eq, ◌==◌, beq_refl, beq_ne, ◌≢◌, All,
}
use drogue_cloud.HashMap.{get, insert, get-insert}
use drogue_cloud.Mqtt.Topics.{split, join, is_level, split-All, split-append, split-is_level}
use drogue_cloud.Integration.{
  Permission, read, QoS, Stream, Services, group_of, application_of, no_wildcards, authorize,
  consumer_group_of, prepare, Session, attach_stream, detach, subscribe_to,
}

group_of-All :
    (client_id : String) (levels : List String)
    → All (λ level. is_level level ≡ true) levels
    → All (λ level. is_level level ≡ true) (group_of client_id levels).1
unfolding group_of
group_of-All client_id [] h = h
group_of-All client_id (a ∷ []) h = h
group_of-All client_id (a ∷ b ∷ levels) h = elim (Bool-cases (a == "$share" || a == "$shared")) [
  | inl p ↦ rw (group_of, p) h.1.1
  | inr p ↦ rw (group_of, p) h
]

application_of_inv :
    (levels : List String) (app : String)
    → application_of levels ≡ ok app
    → (kind : String) × (levels ≡ kind ∷ app ∷ [])
unfolding application_of
application_of_inv [] app h = absurd (ground (arith, h))
application_of_inv (a ∷ []) app h = absurd (ground (arith, h))
application_of_inv (a ∷ b ∷ []) app h = (a, ground (arith, h))
application_of_inv (a ∷ b ∷ c ∷ levels) app h = absurd (ground (arith, h))

-- The topic of a stream has the levels that were left of the topic that was asked for.
split-join-group_of :
    (client_id topic app : String)
    → application_of (group_of client_id (split topic)).1 ≡ ok app
    → split (join (group_of client_id (split topic)).1) ≡ (group_of client_id (split topic)).1
split-join-group_of client_id topic app h =
    let (kind, is) = application_of_inv _ app h in
    let clean = rw is at (group_of-All client_id (split topic) (split-All topic)) in
    rw (is, split-append kind app, split-is_level kind clean.0, split-is_level app clean.1.0) refl

-- The topic of a shared stream is not the one that was asked for.
other_topic :
    (client_id topic group : String) (rest : List String) (stream_topic app : String)
    → split topic ≡ "$share" ∷ group ∷ rest
    → application_of (group_of client_id (split topic)).1 ≡ ok app
    → stream_topic ≡ join (group_of client_id (split topic)).1
    → stream_topic ≢ topic
unfolding group_of
other_topic client_id topic group rest stream_topic app shared named is same =
    let (kind, two) = application_of_inv _ app named in
    let left = split-join-group_of client_id topic app named in
    let levels : split topic ≡ kind ∷ app ∷ [] = ap split (sym same ∙ is) ∙ left ∙ two in
    let short : rest ≡ kind ∷ app ∷ [] = rw (shared, group_of) at two in
    absurd (ground (arith, shared, levels, short))

module _ {A D Target : Type 0} (services : Services A D Target) where
  -- There is no user service, or it allows the user something with the application.
  abbrev pub IsAllowed : String → Permission → Type 0
  IsAllowed application permission =
      (services.user_auth ≡ none)
      ⊎ ((call : String → Permission → Result String Bool) × (services.user_auth ≡ some call)
          × (call application permission ≡ ok true))

  authorize-IsAllowed :
      (application : String) (permission : Permission)
      → authorize services application permission ≡ ok tt
      → IsAllowed application permission
  unfolding authorize
  authorize-IsAllowed application permission h = elim (Option-cases services.user_auth) [
    | inl e ↦ inl e
    | inr (call, e) ↦ elim (Result-cases (call application permission)) [
      | inr (_, f) ↦ absurd (ground (arith, e, f, h))
      | inl (true, f) ↦ inr (call, e, f)
      | inl (false, f) ↦ absurd (ground (arith, e, f, h))
    ]
  ]

  -- What has to hold of a topic for a stream to start.
  pub record IsPrepared (client_id topic : String) (stream : Stream Target) : Type 0 where
    pub app : String
    pub named : application_of (group_of client_id (split topic)).1 ≡ ok app
    pub allowed : authorize services app read ≡ ok tt
    pub group : stream.consumer_group ≡ consumer_group_of app (group_of client_id (split topic)).0
    pub rest : stream.topic ≡ join (group_of client_id (split topic)).1
    pub application : A
    pub found : services.get_app app ≡ ok (some application)
    pub reads : services.kafka_target application ≡ ok stream.target
    pub opened : services.new_stream stream.target stream.consumer_group ≡ ok tt

  prepare_inv :
      (client_id : String) (id : Option ℕ) (topic : String) (qos : QoS) (structured : Bool)
      (stream : Stream Target)
      → prepare services client_id id topic qos structured ≡ ok stream
      → IsPrepared client_id topic stream
  unfolding prepare
  prepare_inv client_id id topic qos structured stream h =
      let grouped = group_of client_id (split topic) in
      elim (Result-cases (no_wildcards grouped.1)) [
        | inr (_, a) ↦ absurd (ground (arith, a, h))
        | inl (tt, a) ↦ elim (Result-cases (application_of grouped.1)) [
          | inr (_, b) ↦ absurd (ground (arith, a, b, h))
          | inl (app, b) ↦ elim (Result-cases (authorize services app read)) [
            | inr (_, c) ↦ absurd (ground (arith, a, b, c, h))
            | inl (tt, c) ↦ elim (Result-cases (services.get_app app)) [
              | inr (_, d) ↦ absurd (ground (arith, a, b, c, d, h))
              | inl (none, d) ↦ absurd (ground (arith, a, b, c, d, h))
              | inl (some app_res, d) ↦ elim (Result-cases (services.kafka_target app_res)) [
                | inr (_, e) ↦ absurd (ground (arith, a, b, c, d, e, h))
                | inl (target, e) ↦
                    elim (Result-cases
                      (services.new_stream target (consumer_group_of app grouped.0))) [
                        | inr (_, f) ↦ absurd (ground (arith, a, b, c, d, e, f, h))
                        | inl (tt, f) ↦ record {
                          app = app;
                          named = b;
                          allowed = c;
                          group = ground (arith, a, b, c, d, e, f, h);
                          rest = ground (arith, a, b, c, d, e, f, h);
                          application = app_res;
                          found = d;
                          reads = ground (arith, a, b, c, d, e, f, h);
                          opened = ground (arith, a, b, c, d, e, f, h);
                        }
                      ]
              ]
            ]
          ]
        ]
      ]

  -- A subscription that is confirmed has a running stream, with the granted level. The stream was
  -- opened on the Kafka target of the application that the registry has under the name in the topic of
  -- the stream. The user service, if there is one, allows the user to read the application of that
  -- name. The consumer group is that of the topic or the client, after the name.
  pub subscribe_to-IsAllowed :
      (s : Session services) (task : ℕ) (id : Option ℕ) (topic : String) (qos granted : QoS)
      (structured : Bool)
      → (subscribe_to services s task id topic qos structured).0 ≡ ok granted
      → let s' = (subscribe_to services s task id topic qos structured).1 in
        (app : String) × (application : A) × (stream : Stream Target) × IsAllowed app read
        × (application_of (split stream.topic) ≡ ok app)
        × (services.get_app app ≡ ok (some application))
        × (services.kafka_target application ≡ ok stream.target)
        × (services.new_stream stream.target stream.consumer_group ≡ ok tt)
        × (stream.consumer_group ≡ consumer_group_of app (group_of s.client_id (split topic)).0)
        × (stream.qos ≡ granted)
        × (get stream.topic s'.streams ≡ some task)
        × (get task s'.running ≡ some stream)
  unfolding subscribe_to attach_stream
  subscribe_to-IsAllowed s task id topic qos granted structured h =
      elim (Result-cases (prepare services s.client_id id topic qos structured)) [
        | inr (_, e) ↦ absurd (ground (arith, e, h))
        | inl (stream, e) ↦
            let p = prepare_inv s.client_id id topic qos structured stream e in
            (
              p.app,
              p.application,
              stream,
              authorize-IsAllowed p.app read p.allowed,
              rw (p.rest, split-join-group_of s.client_id topic p.app p.named) p.named,
              p.found,
              p.reads,
              p.opened,
              p.group,
              ground (arith, e, h),
              rw (subscribe_to, e)
                  (get-insert stream.topic stream.topic task s.streams ∙ rw beq_refl refl),
              rw (subscribe_to, e) (get-insert task task stream s.running ∙ rw beq_refl refl),
            )
      ]

  detach-attach_stream :
      (s : Session services) (task : ℕ) (stream : Stream Target) (topic : String)
      → get topic s.streams ≡ none
      → stream.topic ≢ topic
      → detach services (attach_stream services s task stream) topic
        ≡ (false, attach_stream services s task stream)
  unfolding attach_stream detach
  detach-attach_stream s task stream topic free other =
      let left : get topic (insert stream.topic task s.streams) ≡ none =
        get-insert stream.topic topic task s.streams ∙ rw (beq_ne stream.topic topic other) free in
      rw (detach, left) refl

  -- A shared subscription cannot be undone: a stream has its topic without the prefix and the group,
  -- and UNSUBSCRIBE looks for the topic with them. The answer is that no subscription existed, and
  -- the stream runs on.
  pub detach-subscribe_to_shared :
      (s : Session services) (task : ℕ) (id : Option ℕ) (topic group : String) (rest : List String)
      (qos granted : QoS) (structured : Bool)
      → split topic ≡ "$share" ∷ group ∷ rest
      → get topic s.streams ≡ none
      → (subscribe_to services s task id topic qos structured).0 ≡ ok granted
      → let s' = (subscribe_to services s task id topic qos structured).1 in
        detach services s' topic ≡ (false, s')
  unfolding subscribe_to attach_stream detach group_of
  detach-subscribe_to_shared s task id topic group rest qos granted structured shared free h =
      elim (Result-cases (prepare services s.client_id id topic qos structured)) [
        | inr (_, e) ↦ absurd (ground (arith, e, h))
        | inl (stream, e) ↦
            let p = prepare_inv s.client_id id topic qos structured stream e in
            rw (subscribe_to, e)
              (detach-attach_stream s task stream topic free
                (other_topic s.client_id topic group rest stream.topic p.app shared p.named p.rest))
      ]
