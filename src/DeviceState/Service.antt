-- ===== src/DeviceState/Service.antt =====
-- device-state-service/src/service/postgres.rs: the two tables and the operations on them, as the
-- SQL statements of that file describe them. An operation runs in a transaction, so one that fails
-- leaves the tables as they were; the events that it published before stay published.
-- The device registry and the sink are parameters (`Env`); the database is taken to answer.
pub mod Pruner
pub mod Events
pub mod History
pub mod Ownership
pub mod Pruning
use drogue_cloud.Base.{
  ℕ, zero, suc, ◌+◌, String, Bool, true, false, not, ◌&&◌, List, [], ◌∷◌, ◌++◌, Option, none, some,
  Result, ok, err, ltb, leb, string_eq, ◌==◌, if◌then◌else◌,
}
use drogue_cloud.HashMap.{HashMap, get, insert, remove}
use drogue_cloud.DeviceState.{StateId, DeviceState, LastWillTestament, DeleteOptions, id_eq}

pub data ServiceError : Type 0 where
  not_initialized application_not_found internal database registry publish : ServiceError

pub data Event : Type 0 where
  connection : StateId → Option String → Bool → Event
  last_will : StateId → Option String → LastWillTestament → Event

pub data Lookup : Type 0 where
  found missing failed : Lookup

-- The answers of the sender: three outcomes and two classes of errors.
pub data Published : Type 0 where
  accepted rejected queue_full spec_error other_error : Published

pub record Env : Type 0 where
  pub lookup : String → Lookup
  pub publish : Event → Published

-- `data` is `none` where the column is empty or does not decode.
pub record Row : Type 0 where
  pub session : String
  pub token : String
  pub created : ℕ
  pub lost : Bool
  pub data_of : Option DeviceState

pub record Db : Type 0 where
  pub sessions : HashMap String ℕ
  pub states : HashMap StateId Row

-- A result, and the events that were accepted on the way, the newest first.
abbrev pub Sends : Type 0 → Type 0
Sends A = Result ServiceError A × List Event

infixl 5 ◌>>>◌
abbrev pub ◌>>>◌ : {A : Type 0} → Sends (Unit {0}) → Sends A → Sends A
m >>> k = elim m.0 [ ok _ ↦ (k.0, k.1 ++ m.1) | err e ↦ (err e, m.1) ]

unfoldable pub send_event : Env → Event → Sends Unit
send_event env event = elim (env.publish event) [
  | accepted ↦ (ok tt, event ∷ [])
  | rejected ↦ (err internal, [])
  | queue_full ↦ (err internal, [])
  | spec_error ↦ (ok tt, [])
  | other_error ↦ (err publish, [])
]

unfoldable pub send_lwt_event : Env → StateId → Option String → LastWillTestament → Sends Unit
unfolding send_event
send_lwt_event env id uid lwt = send_event env (last_will id uid lwt)

unfoldable pub send_connection_event : Env → StateId → Option String → Bool → Sends Unit
unfolding send_event
send_connection_event env id uid connected = send_event env (connection id uid connected)

abbrev pub uid_of : Option DeviceState → Option String
uid_of none = none
uid_of (some state) = some state.device_uid

abbrev lwt_of : Option DeviceState → Option LastWillTestament
lwt_of none = none
lwt_of (some state) = state.lwt

-- The last will that is sent: the one of the state, unless it is to be skipped.
abbrev pub will_of : Row → DeleteOptions → Option LastWillTestament
will_of row opts = if opts.skip_lwt then none else lwt_of row.data_of

unfoldable pub send_disconnect_from_delete : Env → StateId → Row → DeleteOptions → Sends Unit
unfolding send_lwt_event send_connection_event
send_disconnect_from_delete env id row opts = elim (env.lookup id.application) [
  | failed ↦ (err registry, [])
  | missing ↦ (ok tt, [])
  | found ↦
      let gone : Sends Unit = send_connection_event env id (uid_of row.data_of) false in
      elim (will_of row opts) [
        | none ↦ gone
        | some lwt ↦ send_lwt_event env id (uid_of row.data_of) lwt >>> gone
      ]
]

unfoldable pub init : Db → String → ℕ → Db
init db session now = record db { sessions = insert session now db.sessions }

pub data CreateResponse : Type 0 where
  created occupied : CreateResponse

-- `INSERT … ON CONFLICT (APPLICATION, DEVICE) DO UPDATE SET lost = true RETURNING lost`, with the
-- foreign key on the session.
unfoldable pub create :
    Env → Db → String → StateId → String → DeviceState → ℕ → Sends CreateResponse × Db
unfolding send_connection_event
create env db session id token state now = elim (env.lookup id.application) [
  | failed ↦ ((err registry, []), db)
  | missing ↦ ((err application_not_found, []), db)
  | found ↦ elim (get id db.states) [
    | some row ↦
        ((ok occupied, []), record db { states = insert id (record row { lost = true }) db.states })
    | none ↦ elim (get session db.sessions) [
      | none ↦ ((err database, []), db)
      | some _ ↦
          let row : Row = record {
            session = session;
            token = token;
            created = now;
            lost = false;
            data_of = some state;
          } in
          let sent = send_connection_event env id (some state.device_uid) true in
          elim sent.0 [
            | ok _ ↦ ((ok created, sent.1), record db { states = insert id row db.states })
            | err e ↦ ((err e, sent.1), db)
          ]
    ]
  ]
]

-- `DELETE … WHERE SESSION = $1 AND APPLICATION = $2 AND DEVICE = $3 AND TOKEN = $4`
unfoldable pub delete : Env → Db → String → StateId → String → DeleteOptions → Sends Unit × Db
unfolding send_disconnect_from_delete
delete env db session id token opts = elim (get id db.states) [
  | none ↦ ((ok tt, []), db)
  | some row ↦
      let sent = send_disconnect_from_delete env id row opts in
      let gone : Sends Unit × Db = elim sent.0 [
        | ok _ ↦ (sent, record db { states = remove id db.states })
        | err e ↦ (sent, db)
      ] in
      if row.session == session && row.token == token then gone else ((ok tt, []), db)
]

unfoldable pub lost_ids : String → HashMap StateId Row → List StateId
lost_ids session [] = []
lost_ids session ((id, row) ∷ rows) =
    let rest = lost_ids session rows in
    if row.session == session && row.lost then id ∷ rest else rest

-- The session expires at the first of the pair; then the ids that another session has asked for.
unfoldable pub ping : Db → ℕ → String → ℕ → Result ServiceError (ℕ × List StateId) × Db
unfolding lost_ids
ping db timeout session now = elim (get session db.sessions) [
  | none ↦ (err not_initialized, db)
  | some last ↦
      if ltb now (last + timeout)
      then (
        ok (now + timeout, lost_ids session db.states),
        record db { sessions = insert session now db.sessions },
      )
      else (err not_initialized, db)
]

unfoldable pub get_state : Db → StateId → Option (ℕ × DeviceState)
get_state db id = elim (get id db.states) [
  | none ↦ none
  | some row ↦
      if row.lost
      then none
      else elim row.data_of [ none ↦ none | some state ↦ some (row.created, state) ]
]
