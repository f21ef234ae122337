-- ===== src/Integration/Tests.antt =====
-- A session of the integration at concrete topics.
use drogue_cloud.Base.{
  ℕ, String, ◌≡◌, ◌≢◌, refl, true, false, [], ◌∷◌, none, some, ok, string_eq, nat_eq, arith,
}
use drogue_cloud.HashMap.{get}
use drogue_cloud.Mqtt.Topics.{split}
use drogue_cloud.Integration.{
  Services, Stream, Session, at_least_once, exactly_once, read, application_of, group_of,
  consumer_group_of, prepare, subscribe_to, attach_stream, detach, drop,
}
use drogue_cloud.Integration.Reading.{IsAllowed, subscribe_to-IsAllowed, detach-subscribe_to_shared}
use drogue_cloud.Integration.Streams.{detach-attach_twice, Reach, drop-Reach}

abbrev open_services : Services String String String
open_services = record {
  user_auth = some (λ app permission. ok true);
  get_app = λ app. ok (some app);
  get_device_and_gateways = λ app device. ok (some device);
  kafka_target = λ app. ok app;
  new_stream = λ target group. ok tt;
  process_command = λ app device command payload. ok tt;
  eq_ignore_ascii_case = λ a b. true;
}

abbrev start : Session open_services
start = record { client_id = "reader"; streams = []; running = [] }

abbrev subscribed : Session open_services
subscribed = (subscribe_to open_services start 1 none "app/example" exactly_once true).1

granted :
    (subscribe_to open_services start 1 none "app/example" exactly_once true).0 ≡ ok at_least_once
unfolding subscribe_to prepare split
granted = refl

subscribe_to-IsAllowed_example :
    (app : String) × (application : String) × (stream : Stream String) × IsAllowed open_services app
      read
    × (application_of (split stream.topic) ≡ ok app)
    × (open_services.get_app app ≡ ok (some application))
    × (open_services.kafka_target application ≡ ok stream.target)
    × (open_services.new_stream stream.target stream.consumer_group ≡ ok tt)
    × (stream.consumer_group ≡ consumer_group_of app (group_of "reader" (split "app/example")).0)
    × (stream.qos ≡ at_least_once)
    × (get stream.topic subscribed.streams ≡ some 1)
    × (get 1 subscribed.running ≡ some stream)
subscribe_to-IsAllowed_example =
    subscribe_to-IsAllowed open_services start 1 none "app/example" exactly_once at_least_once true
      granted

abbrev shared : Session open_services
shared = (subscribe_to open_services start 1 none "$share/group/app/example" exactly_once true).1

shared_levels : split "$share/group/app/example" ≡ "$share" ∷ "group" ∷ "app" ∷ "example" ∷ []
unfolding split
shared_levels = refl

shared_granted :
    (subscribe_to open_services start 1 none "$share/group/app/example" exactly_once true).0
    ≡ ok at_least_once
unfolding subscribe_to prepare split
shared_granted = refl

nothing_there : get "$share/group/app/example" start.streams ≡ none
unfolding get
nothing_there = refl

detach-subscribe_to_shared_example :
    detach open_services shared "$share/group/app/example" ≡ (false, shared)
detach-subscribe_to_shared_example =
    detach-subscribe_to_shared open_services start 1 none "$share/group/app/example" "group"
      ("app" ∷ "example" ∷ []) exactly_once at_least_once true shared_levels nothing_there
      shared_granted

abbrev stream_to : String → Stream String
stream_to group = record {
  topic = "app/example";
  qos = at_least_once;
  id = none;
  target = "example";
  consumer_group = some group;
  structured = true;
}

one_and_two : ◌≢◌ {A = ℕ} 1 2
one_and_two e = omega (arith, e)

abbrev twice : Session open_services
twice =
    attach_stream open_services (attach_stream open_services start 1 (stream_to "a")) 2
      (stream_to "b")

detach-attach_twice_example :
    let r = detach open_services twice "app/example" in
    (get 1 twice.running ≡ some (stream_to "a"))
    × (get 2 twice.running ≡ some (stream_to "b"))
    × (r.0 ≡ true)
    × (get 1 r.1.running ≡ some (stream_to "a"))
    × (get 2 r.1.running ≡ none)
    × (detach open_services r.1 "app/example" ≡ (false, r.1))
detach-attach_twice_example =
    detach-attach_twice open_services start 1 2 (stream_to "a") (stream_to "b") refl one_and_two

abbrev once : Session open_services
once = attach_stream open_services start 1 (stream_to "a")

no_stream : get "app/example" start.streams ≡ none
unfolding get
no_stream = refl

drop-Reach_example : get 1 (drop open_services once).running ≡ none
drop-Reach_example =
    drop-Reach open_services once 1
      (Reach.attached 1 (stream_to "a") (Reach.start "reader") no_stream)
