-- ===== src/DeviceState/Service/History.antt =====
-- device-state-service: calls in a row, with the events that they send; and that the newest
-- connection event of a device tells whether it is connected.
use drogue_cloud.Base.{
  ℕ, String, ◌≡◌, refl, subst, true, false, List, [], ◌∷◌, ◌++◌, none, some, ok, arith, inl, inr,
  is_some, Option-cases, string_eq,
}
use mathlib.Core.List.{append_assoc}
use drogue_cloud.HashMap.{get, get-insert, get-remove}
use drogue_cloud.HashMap.Unique.{IsUnique, insert-IsUnique, remove-IsUnique}
use drogue_cloud.DeviceState.{StateId, DeviceState, DeleteOptions, id_eq, id_beq_iff}
use drogue_cloud.DeviceState.Service.{Env, Event, Row, Db, Sends, init, create, delete, ping}
use drogue_cloud.DeviceState.Service.Pruner.{next_expired, rows_of, prune_session, prune}
use drogue_cloud.DeviceState.Service.Events.{
  connected, IsReliable, connection_sent, disconnect_sent, connected-disconnect,
  disconnect_all_sent, connected-disconnect_all, rows_without-IsUnique, get-rows_without,
}

-- A history of the service: its tables, and the events that it sent, the newest first.
pub record World : Type 0 where
  pub db : Db
  pub events : List Event

abbrev pub start : World
start = record { db = record { sessions = []; states = [] }; events = [] }

pub data Call : Type 0 where
  inits : String → ℕ → Call
  creates : String → StateId → String → DeviceState → ℕ → Call
  deletes : String → StateId → String → DeleteOptions → Call
  pings : String → ℕ → Call
  prunes : List ℕ → Call

abbrev after : {A : Type 0} → World → Sends A × Db → World
after w (sent, db) = record { db = db; events = sent.1 ++ w.events }

-- A call that does not end changes nothing here; `prune` ends if it has the rounds.
unfoldable pub step : Env → ℕ → World → Call → World
step env timeout w (inits session now) = record w { db = init w.db session now }
step env timeout w (creates session id token state now) =
    after w (create env w.db session id token state now)
step env timeout w (deletes session id token opts) = after w (delete env w.db session id token opts)
step env timeout w (pings session now) = record w { db = (ping w.db timeout session now).1 }
step env timeout w (prunes nows) = elim (prune env timeout nows w.db) [
  | none ↦ w
  | some r ↦ after w r
]

unfoldable pub run : Env → ℕ → World → List Call → World
run env timeout w [] = w
run env timeout w (c ∷ cs) = run env timeout (step env timeout w c) cs

-- The newest event of each device is the truth about it.
record IsTrue (w : World) : Type 0 where
  unique : IsUnique w.db.states
  truth : (id : StateId) → connected id w.events ≡ is_some (get id w.db.states)

module _ (env : Env) (reliable : IsReliable env) where
  create-IsTrue :
      (w : World) (session : String) (id : StateId) (token : String) (state : DeviceState) (now : ℕ)
      → IsTrue w
      → IsTrue (after w (create env w.db session id token state now))
  unfolding create connected
  create-IsTrue w session id token state now v =
      let states = w.db.states in
      let known = reliable.known id.application in
      elim (Option-cases (get id states)) [
        | inr (row, e) ↦
            let kept : Row = record row { lost = true } in
            record {
              unique = ground (arith, e, known, insert-IsUnique id kept states v.unique);
              truth = λ j.
                  ground (arith, e, known, get-insert id j kept states, v.truth j, id_beq_iff id j);
            }
        | inl e ↦
            let row : Row = record {
              session = session;
              token = token;
              created = now;
              lost = false;
              data_of = some state;
            } in
            let sent = connection_sent env reliable id (some state.device_uid) true in
            record {
              unique =
                  ground (arith, e, known, sent, v.unique, insert-IsUnique id row states v.unique);
              truth = λ j. ground (arith, e, known, sent, get-insert id j row states, v.truth j);
            }
      ]

  delete-IsTrue :
      (w : World) (session : String) (id : StateId) (token : String) (opts : DeleteOptions)
      → IsTrue w
      → IsTrue (after w (delete env w.db session id token opts))
  unfolding delete
  delete-IsTrue w session id token opts v = elim (Option-cases (get id w.db.states)) [
    | inl e ↦ rw (e, delete) v
    | inr (row, e) ↦ record {
      unique = ground (
        arith,
        e,
        v.unique,
        disconnect_sent env reliable id row opts,
        remove-IsUnique id w.db.states v.unique,
      );
      truth = λ j. ground (
        arith,
        e,
        v.truth j,
        disconnect_sent env reliable id row opts,
        connected-disconnect env reliable id j row opts w.events,
        get-remove id j w.db.states,
      );
    }
  ]

  session_sent : (db : Db) (session : String) → (prune_session env db session).0.0 ≡ ok tt
  unfolding prune_session
  session_sent db session =
      ground (arith, disconnect_all_sent env reliable (rows_of session db.states))

  prune_session-IsTrue :
      (w : World) (session : String) → IsTrue w → IsTrue (after w (prune_session env w.db session))
  unfolding prune_session
  prune_session-IsTrue w session v =
      let rows = rows_of session w.db.states in
      let sent = disconnect_all_sent env reliable rows in
      record {
        unique = ground (arith, sent, rows_without-IsUnique session w.db.states v.unique);
        truth = λ j. ground (
          arith,
          sent,
          v.truth j,
          connected-disconnect_all env reliable rows j w.events,
          get-rows_without session w.db.states j v.unique,
        );
      }

  -- The rounds of `prune`, with the events before them.
  prune-IsTrue :
      (timeout : ℕ) (nows : List ℕ) (w : World) (r : Sends Unit × Db)
      → IsTrue w
      → prune env timeout nows w.db ≡ some r
      → IsTrue (after w r)
  unfolding prune
  prune-IsTrue timeout [] w r v h = cc
  prune-IsTrue timeout (now ∷ nows) w r v h =
      elim (Option-cases (next_expired w.db.sessions timeout now)) [
        | inl e ↦
            let same : ((ok tt, []), w.db) ≡ r = cc (rw (e, prune) at h) in
            subst (λ x. IsTrue (after w x)) same v
        | inr (next, e) ↦
            let round = prune_session env w.db next.0 in
            let v' : IsTrue (after w round) = prune_session-IsTrue w next.0 v in
            elim (Option-cases (prune env timeout nows round.1)) [
              | inl stuck ↦ ground (arith, e, h, session_sent w.db next.0, stuck)
              | inr (rest, done) ↦
                  let same : ((rest.0.0, rest.0.1 ++ round.0.1), rest.1) ≡ r =
                    ground (arith, e, h, session_sent w.db next.0, done) in
                  subst (λ x. IsTrue (after w x)) same
                    (rw append_assoc (prune-IsTrue timeout nows (after w round) rest v' done))
            ]
      ]

  step-IsTrue : (timeout : ℕ) (w : World) (c : Call) → IsTrue w → IsTrue (step env timeout w c)
  unfolding step
  step-IsTrue timeout w (inits session now) v =
      unfold init in record { unique = v.unique; truth = v.truth }
  step-IsTrue timeout w (creates session id token state now) v =
      create-IsTrue w session id token state now v
  step-IsTrue timeout w (deletes session id token opts) v = delete-IsTrue w session id token opts v
  step-IsTrue timeout w (pings session now) v =
      unfold ping in
      record { unique = ground (arith, v.unique); truth = λ j. ground (arith, v.truth j) }
  step-IsTrue timeout w (prunes nows) v = elim (Option-cases (prune env timeout nows w.db)) [
    | inl e ↦ rw (e, step) v
    | inr (r, e) ↦ rw (e, step) (prune-IsTrue timeout nows w r v e)
  ]

  run-IsTrue : (timeout : ℕ) (w : World) (cs : List Call) → IsTrue w → IsTrue (run env timeout w cs)
  unfolding run
  run-IsTrue timeout w [] v = v
  run-IsTrue timeout w (c ∷ cs) v =
      run-IsTrue timeout (step env timeout w c) cs (step-IsTrue timeout w c v)

  -- With a registry and a sink that answer well: after any calls of the service, a device has a row
  -- exactly if the newest connection event that was sent for it says that it is connected. Pruning
  -- of expired sessions is one of the calls.
  pub connected-run :
      (timeout : ℕ) (cs : List Call) (id : StateId)
      → connected id (run env timeout start cs).events
        ≡ is_some (get id (run env timeout start cs).db.states)
  unfolding get connected
  connected-run timeout cs id = (run-IsTrue timeout start cs start-IsTrue).truth id
    where
      start-IsTrue : IsTrue start
      start-IsTrue = record { unique = tt; truth = λ j. refl }
