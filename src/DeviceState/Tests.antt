-- ===== src/DeviceState/Tests.antt =====
-- Runs of the device state service and of the watchers, and the theorems at concrete inputs.
use mathlib.Core.List.{Perm}
use drogue_cloud.Base.{
  ◌≡◌, refl, true, false, false≢true, List, [], ◌∷◌, ◌++◌, none, some, ok, arith, is_some,
  string_eq, string_beq_iff,
}
use drogue_cloud.HashMap.{get, insert, remove}
use drogue_cloud.DeviceState.{StateId, DeviceState, id_eq}
use drogue_cloud.DeviceState.Mux
use drogue_cloud.DeviceState.Mux.Watchers
use drogue_cloud.DeviceState.Mux.Watchers.{
  waiting, told, made, add, delete_state, lose, run-watchers-perm,
}
use drogue_cloud.DeviceState.Service.{
  Env, connection, Row, Db, Sends, found, accepted, create, init, send_disconnect_from_delete,
}
use drogue_cloud.DeviceState.Service.Events.{IsReliable, connected}
use drogue_cloud.DeviceState.Service.History.{
  Call, start, inits, creates, deletes, prunes, step, run, connected-run,
}
use drogue_cloud.DeviceState.Service.Ownership.{owner, owner-step}
use drogue_cloud.DeviceState.Service.Pruner.{prune, next_expired}
use drogue_cloud.DeviceState.Service.Pruning.{prune_total}

abbrev thing : StateId
thing = record { application = "app"; device = "d" }

-- A device that two sessions register, deleted late by the first.
abbrev takeover : List Watchers.Call
takeover = add thing "a" ∷ add thing "b" ∷ delete_state thing "a" ∷ lose thing ∷ []

run-watchers-perm_example :
    Perm
      (told (Watchers.run Watchers.start takeover).notices
        ++ waiting (Watchers.run Watchers.start takeover).mux)
      (made (Watchers.run Watchers.start takeover).next)
run-watchers-perm_example = run-watchers-perm takeover

takeover_notices :
    (Watchers.run Watchers.start takeover).notices
    ≡ (1, Mux.reported) ∷ (0, Mux.new_registration) ∷ []
unfolding Watchers.run Watchers.step Mux.added Mux.delete Mux.handle_lost get insert remove
takeover_notices = refl

abbrev willing : Env
willing = record { lookup = λ application. found; publish = λ event. accepted }

willing-IsReliable : IsReliable willing
willing-IsReliable = record { known = λ application. refl; accepts = λ event. refl }

abbrev a_state : DeviceState
a_state = record { device_uid = "u"; endpoint = "http"; lwt = none }

abbrev a_row : Row
a_row = record { session = "s1"; token = "t1"; created = 3; lost = false; data_of = some a_state }

-- Two sessions; the first has the state of the device.
abbrev two_sessions : Db
two_sessions = record { sessions = ("s1", 0) ∷ ("s2", 7) ∷ []; states = (thing, a_row) ∷ [] }

abbrev day : List Call
day =
    inits "s1" 0
    ∷ creates "s1" thing "t1" a_state 3
    ∷ creates "s2" thing "t2" a_state 4
    ∷ prunes (20 ∷ 20 ∷ [])
    ∷ []

connected-run_example :
    connected thing (run willing 10 start day).events
    ≡ is_some (get thing (run willing 10 start day).db.states)
connected-run_example = connected-run willing willing-IsReliable 10 day thing

-- The prune of the day takes the state away, and announces it.
day_events :
    (run willing 10 start day).events
    ≡ connection thing (some "u") false ∷ connection thing (some "u") true ∷ []
unfolding run step init create prune next_expired send_disconnect_from_delete get insert remove
day_events = refl

-- Another session cannot delete the state, not even with the right token.
owner-step_example :
    owner
      (step willing 10
        (record { db = two_sessions; events = [] })
        (deletes "s2" thing "t1" (record { skip_lwt = false }))).db
      thing
    ≡ some ("s1", "t1")
unfolding get
owner-step_example =
    owner-step willing 10 (record { db = two_sessions; events = [] })
      (deletes "s2" thing "t1" (record { skip_lwt = false })) thing "s1" "t1" refl
      (λ h. false≢true ((string_beq_iff "s1" "s2").1 h.1))

prune_total_example :
    (r : Sends Unit × Db) × (prune willing 10 (12 ∷ 12 ∷ 12 ∷ []) two_sessions ≡ some r)
prune_total_example = prune_total willing 10 (12 ∷ 12 ∷ 12 ∷ []) two_sessions (omega arith)

-- The first session has expired, the second is alive.
abbrev pruned : Db
pruned = record { sessions = ("s2", 7) ∷ []; states = [] }

pruned_run :
    prune willing 10 (12 ∷ 12 ∷ []) two_sessions
    ≡ some ((ok tt, connection thing (some "u") false ∷ []), pruned)
unfolding prune next_expired send_disconnect_from_delete get remove
pruned_run = refl

abbrev b_row : Row
b_row = record { session = "s2"; token = "t2"; created = 3; lost = true; data_of = none }

abbrev shared : Db
shared = record two_sessions { states = (thing, b_row) ∷ [] }

abbrev kept : Db
kept = record { sessions = ("s2", 7) ∷ []; states = (thing, b_row) ∷ [] }

pruned_shared : prune willing 10 (12 ∷ 12 ∷ []) shared ≡ some ((ok tt, []), kept)
unfolding prune next_expired send_disconnect_from_delete get remove
pruned_shared = refl
