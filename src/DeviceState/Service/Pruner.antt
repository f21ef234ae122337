-- ===== src/DeviceState/Service/Pruner.antt =====
-- device-state-service/src/service/postgres.rs, `prune` and `prune_session`: sessions that were not
-- pinged in time go, with their states.
use drogue_cloud.Base.{
  ℕ, ◌+◌, String, List, [], ◌∷◌, ◌++◌, false, Option, none, some, ok, err, leb, string_eq, ◌==◌,
  if◌then◌else◌,
}
use drogue_cloud.HashMap.{HashMap, remove}
use drogue_cloud.DeviceState.{StateId, id_eq}
use drogue_cloud.DeviceState.Service.{Env, Row, Db, Sends, ◌>>>◌, send_disconnect_from_delete}

-- `WHERE LAST_PING + $1 <= $2 ORDER BY LAST_PING ASC LIMIT 1`
unfoldable pub next_expired : HashMap String ℕ → ℕ → ℕ → Option (String × ℕ)
next_expired [] timeout now = none
next_expired ((session, last) ∷ sessions) timeout now =
    let rest = next_expired sessions timeout now in
    let best : Option (String × ℕ) = elim rest [
      | none ↦ some (session, last)
      | some other ↦ if leb last other.1 then some (session, last) else some other
    ] in
    if leb (last + timeout) now then best else rest

-- `DELETE FROM states WHERE SESSION = $1`: the rows that go, and those that stay.
unfoldable pub rows_of : String → HashMap StateId Row → HashMap StateId Row
rows_of session [] = []
rows_of session ((id, row) ∷ rows) =
    let rest = rows_of session rows in if row.session == session then (id, row) ∷ rest else rest

unfoldable pub rows_without : String → HashMap StateId Row → HashMap StateId Row
rows_without session [] = []
rows_without session ((id, row) ∷ rows) =
    let rest = rows_without session rows in
    if row.session == session then rest else (id, row) ∷ rest

unfoldable pub disconnect_all : Env → HashMap StateId Row → Sends Unit
disconnect_all env [] = (ok tt, [])
disconnect_all env ((id, row) ∷ rows) =
    let rest = disconnect_all env rows in
    send_disconnect_from_delete env id row (record { skip_lwt = false }) >>> rest

unfoldable pub prune_session : Env → Db → String → Sends Unit × Db
unfolding disconnect_all rows_of rows_without
prune_session env db session =
    let sent = disconnect_all env (rows_of session db.states) in
    let pruned : Db = record {
      sessions = remove session db.sessions;
      states = rows_without session db.states;
    } in
    elim sent.0 [ ok _ ↦ (sent, pruned) | err e ↦ (sent, db) ]

-- The loop of `prune`, with the clock read in each round; `none` where the rounds ran out.
unfoldable pub prune : Env → ℕ → List ℕ → Db → Option (Sends Unit × Db)
unfolding prune_session
prune env timeout [] db = none
prune env timeout (now ∷ nows) db = elim (next_expired db.sessions timeout now) [
  | none ↦ some ((ok tt, []), db)
  | some next ↦
      let round = prune_session env db next.0 in
      elim round.0.0 [
        | err e ↦ some round
        | ok _ ↦ elim (prune env timeout nows round.1) [
          | none ↦ none
          | some rest ↦ some ((rest.0.0, rest.0.1 ++ round.0.1), rest.1)
        ]
      ]
]
