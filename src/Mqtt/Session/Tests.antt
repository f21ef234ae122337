-- ===== src/Mqtt/Session/Tests.antt =====
-- A session at concrete calls. The world of the services is the number of the next subscription.
use mathlib.Core.List.{Perm}
use drogue_cloud.Base.{ℕ, ◌+◌, ◌≡◌, true, List, [], ◌∷◌, none, ok}
use drogue_cloud.Publish.Sender.{event_accepted}
use drogue_cloud.Mqtt.Dialect.{drogue_v1}
use drogue_cloud.Mqtt.Disconnect.{v3, is_normal_disconnection}
use drogue_cloud.Mqtt.Session.{Services, fail, Outside, drop, new}
use drogue_cloud.Mqtt.Session.Calls.{
  Call, subscribes, unsubscribes, disconnects, closes, opened_in, shut_in, deletions, run,
}
use drogue_cloud.Mqtt.Session.Cleanup.{drop_unsubscribes}
use drogue_cloud.Mqtt.Session.LastWill.{drop_deletes_once}
use drogue_cloud.Mqtt.Tests.{unbounded, gateway, first_cache}

abbrev numbered : Services ℕ ℕ
numbered = record {
  subscribe_to = λ filter next. (record { filter = filter; id = next }, next + 1);
  unsubscribe_from = λ handle next. next;
  delete_state = λ skip_lwt next. next;
  authorize_as = λ id device next. ok fail;
  publish_on = λ channel device type payload next. (ok event_accepted, next);
}

-- Two subscriptions, one of which is undone, then a normal disconnect.
abbrev calls : List Call
calls =
    subscribes none ("command/inbox/#" ∷ "command/inbox/door/#" ∷ [])
    ∷ unsubscribes ("command/inbox/#" ∷ [])
    ∷ disconnects v3
    ∷ closes
    ∷ []

abbrev last : Outside ℕ
last = drop unbounded numbered (
    run unbounded numbered
      (new unbounded numbered drogue_v1 gateway 0 first_cache, record { world = 0; requests = [] })
      calls)

drop_unsubscribes_example : Perm (opened_in last.requests) (shut_in last.requests)
drop_unsubscribes_example =
    drop_unsubscribes unbounded numbered drogue_v1 gateway 0 first_cache 0 calls

drop_deletes_once_example : deletions last.requests ≡ true ∷ []
unfolding is_normal_disconnection
drop_deletes_once_example =
    drop_deletes_once unbounded numbered drogue_v1 gateway 0 first_cache 0 calls
