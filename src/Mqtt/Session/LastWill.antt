-- ===== src/Mqtt/Session/LastWill.antt =====
-- mqtt-endpoint/src/service/session/mod.rs: the state of the device is deleted once, and whether its
-- last will is skipped.

use drogue_cloud.Base.{
  String, ◌≡◌, refl, ◌∙◌, sym, subst, ap, Bool, true, false, List, [], ◌∷◌, Option, none, some,
  string_eq,
}
use drogue_cloud.HashMap.{HashMap}
use drogue_cloud.Command.{DeviceId}
use drogue_cloud.Mqtt.Dialect.{MqttDialect}
use drogue_cloud.Mqtt.Disconnect.{
  Inner, connected, disconnected, disconnect, on_disconnect, is_normal_disconnection, close,
}
use drogue_cloud.Mqtt.Cache.{Lru, DeviceCache}
use drogue_cloud.Mqtt.Session.{
  Services, Outside, InboxSubscription, Session, new, close_inbox, close_all, publish, subscribe,
  unsubscribe, take_handle, closed, drop,
}
use drogue_cloud.Mqtt.Session.Calls.{
  Call, publishes, subscribes, unsubscribes, disconnects, closes, deletions, Live, step, run,
}
use drogue_cloud.Mqtt.Session.Same.{
  publish-IsSame, subscribe-IsSame, unsubscribe-IsSame, disconnected_by_lem,
}

-- Whether the last will is skipped: if the session was closed, after a first disconnect that was a
-- normal one.
abbrev pub last_will_skipped : Option Bool → List Call → Bool
last_will_skipped first [] = false
last_will_skipped none (closes ∷ calls) = false
last_will_skipped (some normal) (closes ∷ calls) = normal
last_will_skipped none (disconnects message ∷ calls) =
    last_will_skipped (some (is_normal_disconnection message)) calls
last_will_skipped (some normal) (disconnects message ∷ calls) =
    last_will_skipped (some normal) calls
last_will_skipped first (publishes message r ∷ calls) = last_will_skipped first calls
last_will_skipped first (subscribes id topics ∷ calls) = last_will_skipped first calls
last_will_skipped first (unsubscribes topics ∷ calls) = last_will_skipped first calls

module _ {World T : Type 0} (lru : Lru T) (services : Services World T) where
  close_all-deletions :
      (o : Outside World) (entries : HashMap String InboxSubscription)
      → deletions (close_all lru services o entries).requests ≡ deletions o.requests
  unfolding close_all close_inbox
  close_all-deletions o [] = refl
  close_all-deletions o (entry ∷ entries) =
      close_all-deletions (close_inbox lru services o entry.1) entries

  abbrev ended : Live lru services → List Call → List Bool
  ended state calls = deletions (drop lru services (run lru services state calls)).requests

  take_handle_gone :
      (s : Session lru services) (o : Outside World) (skip_lwt : Bool)
      → s.has_handle ≡ false
      → take_handle lru services (s, o) skip_lwt ≡ (s, o)
  unfolding take_handle
  take_handle_gone s o skip_lwt gone = rw (take_handle, gone) refl

  -- Once the handle is gone nothing more is deleted.
  nothing_deletes :
      (calls : List Call) (state : Live lru services)
      → state.0.has_handle ≡ false
      → ended state calls ≡ deletions state.1.requests
  unfolding run step drop closed
  nothing_deletes [] (s, o) gone =
      rw (drop, take_handle_gone s o false gone) (close_all-deletions o s.inbox_reader)
  nothing_deletes (publishes message r ∷ calls) state gone =
      let same = publish-IsSame lru services state message r in
      nothing_deletes calls (publish lru services state message r).1 (same.has_handle ∙ gone)
      ∙ same.all_deleted
  nothing_deletes (subscribes id topics ∷ calls) state gone =
      let same = subscribe-IsSame lru services state id topics in
      nothing_deletes calls (subscribe lru services state id topics).1 (same.has_handle ∙ gone)
      ∙ same.all_deleted
  nothing_deletes (unsubscribes topics ∷ calls) state gone =
      let same = unsubscribe-IsSame lru services state topics in
      nothing_deletes calls (unsubscribe lru services state topics).1 (same.has_handle ∙ gone)
      ∙ same.all_deleted
  nothing_deletes (disconnects message ∷ calls) (s, o) gone =
      let next = disconnected_by_lem lru services s o message in
      rw (run, step, next)
        (nothing_deletes calls (record s { disconnect = (on_disconnect s.disconnect message).1 }, o)
          gone)
  nothing_deletes (closes ∷ calls) (s, o) gone =
      let left : Session lru services = record s { disconnect = (close s.disconnect).1 } in
      let next = take_handle_gone left o (close s.disconnect).0 gone in
      nothing_deletes calls (closed lru services (s, o)) (rw (closed, next) gone)
      ∙ rw (closed, next) (close_all-deletions o s.inbox_reader)

  -- Closing deletes the state, with what the first disconnect says.
  closing_deletes :
      (calls : List Call) (s : Session lru services) (o : Outside World)
      → s.has_handle ≡ true
      → deletions o.requests ≡ []
      → ended (closed lru services (s, o)) calls ≡ (close s.disconnect).0 ∷ []
  unfolding closed take_handle
  closing_deletes calls s o there none_yet =
      nothing_deletes calls (closed lru services (s, o)) (rw (closed, take_handle, there) refl)
      ∙ rw (closed, take_handle, there)
          (close_all-deletions _ s.inbox_reader ∙ ap (λ l. (close s.disconnect).0 ∷ l) none_yet)

  -- The first disconnect of a session that is not closed.
  abbrev IsFirst : Option Bool → Inner → Type 0
  IsFirst none inner = inner ≡ connected
  IsFirst (some skip_lwt) inner = inner ≡ disconnected skip_lwt

  ending_deletes :
      (calls : List Call) (first : Option Bool) (state : Live lru services)
      → IsFirst first state.0.disconnect
      → state.0.has_handle ≡ true
      → deletions state.1.requests ≡ []
      → ended state calls ≡ last_will_skipped first calls ∷ []
  unfolding run step drop take_handle close on_disconnect disconnect
  ending_deletes [] first (s, o) is there none_yet =
      rw (drop, take_handle, there)
        (close_all-deletions _ s.inbox_reader ∙ ap (λ l. false ∷ l) none_yet)
  ending_deletes (publishes message r ∷ calls) first state is there none_yet =
      let same = publish-IsSame lru services state message r in
      ending_deletes calls first (publish lru services state message r).1
        (subst (IsFirst first) (sym same.disconnect) is) (same.has_handle ∙ there)
        (same.all_deleted ∙ none_yet)
  ending_deletes (subscribes id topics ∷ calls) first state is there none_yet =
      let same = subscribe-IsSame lru services state id topics in
      ending_deletes calls first (subscribe lru services state id topics).1
        (subst (IsFirst first) (sym same.disconnect) is) (same.has_handle ∙ there)
        (same.all_deleted ∙ none_yet)
  ending_deletes (unsubscribes topics ∷ calls) first state is there none_yet =
      let same = unsubscribe-IsSame lru services state topics in
      ending_deletes calls first (unsubscribe lru services state topics).1
        (subst (IsFirst first) (sym same.disconnect) is) (same.has_handle ∙ there)
        (same.all_deleted ∙ none_yet)
  ending_deletes (disconnects message ∷ calls) none (s, o) is there none_yet =
      rw (run, step, disconnected_by_lem lru services s o message)
        (ending_deletes calls (some (is_normal_disconnection message))
          (record s { disconnect = (on_disconnect s.disconnect message).1 }, o)
          (rw (on_disconnect, is) refl) there none_yet)
  ending_deletes (disconnects message ∷ calls) (some skip) (s, o) is there none_yet =
      rw (run, step, disconnected_by_lem lru services s o message)
        (ending_deletes calls (some skip)
          (record s { disconnect = (on_disconnect s.disconnect message).1 }, o)
          (rw (on_disconnect, is) refl) there none_yet)
  ending_deletes (closes ∷ calls) none (s, o) is there none_yet =
      closing_deletes calls s o there none_yet ∙ rw is refl
  ending_deletes (closes ∷ calls) (some skip) (s, o) is there none_yet =
      closing_deletes calls s o there none_yet ∙ rw is refl

  -- After any calls, when the session is gone, the state of its device has been deleted exactly
  -- once. The last will is skipped if the session was closed after a disconnect, and the first
  -- disconnect was a normal one.
  pub drop_deletes_once :
      (dialect : MqttDialect) (id : DeviceId) (device : T) (cache : DeviceCache lru) (world : World)
      (calls : List Call)
      → let start = new lru services dialect id device cache in
        let end =
          drop lru services
            (run lru services (start, record { world = world; requests = [] }) calls) in
        deletions end.requests ≡ last_will_skipped none calls ∷ []
  unfolding new
  drop_deletes_once dialect id device cache world calls =
      let start = new lru services dialect id device cache in
      ending_deletes calls none (start, record { world = world; requests = [] }) refl refl refl
