-- ===== src/Command/Tests.antt =====
-- Runs of the command dispatcher, and its theorems at concrete inputs.
use mathlib.Core.List.{Perm}
use drogue_cloud.Base.{
  String, ◌≡◌, refl, false, not, [], ◌∷◌, none, some, string_eq, ◌==◌, if◌then◌else◌,
}
use drogue_cloud.HashMap.{get, insert, remove}
use drogue_cloud.Command.{
  always, Command, MqttTopics, wildcard, proxied_device, device_filter, matches, name_filter_from,
  with_filter,
}
use drogue_cloud.Command.Registry.{
  Commands, SubscriptionHandle, new, free_id, add_entry, register, subscribe, unsubscribe, send,
}
use drogue_cloud.Command.Delivery.{send-subscribe, send-unsubscribe-subscribe, wants}
use drogue_cloud.Command.Lifecycle.{Reach, start, subscribed}

-- Topic filters that match one name only, and are refused when empty.
abbrev exact : MqttTopics
exact = record {
  TopicFilter = String;
  new_filter = λ text. if text == "" then none else some text;
  is_name = λ name. not (name == "");
  is_match = λ filter name. filter == name;
}

abbrev reboot : String → String → Command
reboot gateway device = record {
  address = record { app_id = "app"; gateway_id = gateway; device_id = device };
  command = "reboot";
  payload = none;
}

-- Channel 7 has a subscription for a device behind a gateway.
abbrev only_proxied : Commands String
only_proxied = record {
  devices =
      (
        record { app_id = "app"; gateway_id = "gw"; device_id = "d1" },
        (40, record { tx = 7; filter = always }) ∷ [],
      )
      ∷ [];
  wildcards = [];
}

-- Channel 8 then subscribes as the gateway.
abbrev both : Commands String
both = record only_proxied {
  wildcards =
      (record { app_id = "app"; device_id = "gw" }, (41, record { tx = 8; filter = always }) ∷ [])
      ∷ [];
}

abbrev as_gateway : SubscriptionHandle
as_gateway = record {
  filter = record { application = "app"; gateway = "gw"; device = none; command_filter = none };
  id = 41;
}

subscribe_first :
    subscribe exact new (proxied_device "app" "gw" "d1") 7 (40 ∷ [])
    ≡ some (
      only_proxied,
      record {
        filter = record {
          application = "app";
          gateway = "gw";
          device = some "d1";
          command_filter = none;
        };
        id = 40;
      },
    )
unfolding subscribe register add_entry free_id get insert remove new proxied_device name_filter_from
subscribe_first = refl

subscribe_second :
    subscribe exact only_proxied (device_filter "app" "gw") 8 (41 ∷ []) ≡ some (both, as_gateway)
unfolding subscribe register add_entry free_id get insert remove device_filter name_filter_from
subscribe_second = refl

-- A command for the device goes to both, one for another device to the gateway alone.
send_to_both :
    (send exact both (reboot "gw" "d1") ≡ 7 ∷ 8 ∷ [])
    × (send exact both (reboot "gw" "d2") ≡ 8 ∷ [])
unfolding send get matches
send_to_both = (refl, refl)

-- With a topic filter only the commands of that name are wanted.
wants_named :
    wants exact (with_filter (wildcard "app" "gw") (some "stop")) (reboot "gw" "d1") ≡ false
unfolding wants with_filter wildcard matches name_filter_from
wants_named = refl

send-subscribe_example :
    Perm (send exact both (reboot "gw" "d2")) (8 ∷ send exact only_proxied (reboot "gw" "d2"))
unfolding wants device_filter matches name_filter_from
send-subscribe_example =
    send-subscribe exact only_proxied both (device_filter "app" "gw") 8 (41 ∷ []) as_gateway
      (reboot "gw" "d2") subscribe_second

send-unsubscribe-subscribe_example :
    send exact (unsubscribe exact both as_gateway) (reboot "gw" "d1")
    ≡ send exact only_proxied (reboot "gw" "d1")
send-unsubscribe-subscribe_example =
    send-unsubscribe-subscribe exact only_proxied both (device_filter "app" "gw") 8 (41 ∷ [])
      as_gateway (reboot "gw" "d1") subscribe_second

reach_both : Reach exact both
reach_both =
    subscribed (device_filter "app" "gw") 8 (41 ∷ []) as_gateway
      (subscribed (proxied_device "app" "gw" "d1") 7 (40 ∷ []) _ start subscribe_first)
      subscribe_second
