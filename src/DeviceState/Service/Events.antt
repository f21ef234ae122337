-- ===== src/DeviceState/Service/Events.antt =====
-- device-state-service: the connection events tell who is connected.
use drogue_cloud.Base.{
  String, ◌≡◌, refl, subst, Bool, false, List, [], ◌∷◌, ◌++◌, Option, none, some, ok, arith, inl,
  inr, is_some, if◌then◌else◌, Option-cases, Bool-cases, string_eq, ◌==◌,
}
use mathlib.Core.List.{append_assoc}
use drogue_cloud.HashMap.{HashMap, get}
use drogue_cloud.HashMap.Unique.{IsUnique}
use drogue_cloud.DeviceState.{StateId, DeleteOptions, id_eq, id_beq_iff}
use drogue_cloud.DeviceState.Service.{
  Env, will_of, uid_of, Event, connection, last_will, found, accepted, Row, send_event,
  send_connection_event, send_disconnect_from_delete,
}
use drogue_cloud.DeviceState.Service.Pruner.{rows_of, rows_without, disconnect_all}

-- What the newest connection event of a device says.
unfoldable pub connected : StateId → List Event → Bool
connected id [] = false
connected id (connection j uid b ∷ events) = if j == id then b else connected id events
connected id (last_will j uid lwt ∷ events) = connected id events

-- The registry knows the application, and the sink accepts every event.
pub record IsReliable (env : Env) : Type 0 where
  pub known : (application : String) → env.lookup application ≡ found
  pub accepts : (event : Event) → env.publish event ≡ accepted

module _ (env : Env) (reliable : IsReliable env) where
  pub connection_sent :
      (id : StateId) (uid : Option String) (b : Bool)
      → send_connection_event env id uid b ≡ (ok tt, connection id uid b ∷ [])
  unfolding send_connection_event
  connection_sent id uid b = rw (reliable.accepts (connection id uid b), send_event)

  pub wills : StateId → Row → DeleteOptions → List Event
  wills id row opts = elim (will_of row opts) [
    | none ↦ []
    | some lwt ↦ last_will id (uid_of row.data_of) lwt ∷ []
  ]

  pub disconnect_sent :
      (id : StateId) (row : Row) (opts : DeleteOptions)
      → send_disconnect_from_delete env id row opts
        ≡ (ok tt, connection id (uid_of row.data_of) false ∷ wills id row opts)
  unfolding send_disconnect_from_delete wills send_event
  disconnect_sent id row opts = elim (Option-cases (will_of row opts)) [
    | inl e ↦ ground (
      arith,
      e,
      reliable.known id.application,
      reliable.accepts (connection id (uid_of row.data_of) false),
    )
    | inr (lwt, e) ↦ ground (
      arith,
      e,
      reliable.known id.application,
      reliable.accepts (connection id (uid_of row.data_of) false),
      reliable.accepts (last_will id (uid_of row.data_of) lwt),
    )
  ]

  connected-wills :
      (id j : StateId) (row : Row) (opts : DeleteOptions) (old : List Event)
      → connected j (wills id row opts ++ old) ≡ connected j old
  unfolding wills connected
  connected-wills id j row opts old = ground arith

  pub connected-disconnect :
      (id j : StateId) (row : Row) (opts : DeleteOptions) (old : List Event)
      → connected j ((send_disconnect_from_delete env id row opts).1 ++ old)
        ≡ (if id == j then false else connected j old)
  unfolding connected
  connected-disconnect id j row opts old =
      rw (disconnect_sent id row opts) (rw (connected-wills id j row opts old) refl)

  pub disconnect_all_sent : (rows : HashMap StateId Row) → (disconnect_all env rows).0 ≡ ok tt
  unfolding disconnect_all
  disconnect_all_sent [] = refl
  disconnect_all_sent ((id, row) ∷ rows) =
      let opts : DeleteOptions = record { skip_lwt = false } in
      ground (arith, disconnect_sent id row opts, disconnect_all_sent rows)

  pub connected-disconnect_all :
      (rows : HashMap StateId Row) (j : StateId) (old : List Event)
      → connected j ((disconnect_all env rows).1 ++ old)
        ≡ (if is_some (get j rows) then false else connected j old)
  unfolding disconnect_all get
  connected-disconnect_all [] j old = refl
  connected-disconnect_all ((id, row) ∷ rows) j old =
      let opts : DeleteOptions = record { skip_lwt = false } in
      let sent = send_disconnect_from_delete env id row opts in
      ground (
        arith,
        disconnect_sent id row opts,
        append_assoc (disconnect_all env rows).1 sent.1 old,
        connected-disconnect_all rows j (sent.1 ++ old),
        connected-disconnect id j row opts old,
      )

rows_of_absent :
    (session : String) (rows : HashMap StateId Row) (j : StateId)
    → get j rows ≡ none
    → get j (rows_of session rows) ≡ none
unfolding rows_of get
rows_of_absent session [] j h = refl
rows_of_absent session ((id, row) ∷ rows) j h = ground (arith, rows_of_absent session rows j)

rows_without_absent :
    (session : String) (rows : HashMap StateId Row) (j : StateId)
    → get j rows ≡ none
    → get j (rows_without session rows) ≡ none
unfolding rows_without get
rows_without_absent session [] j h = refl
rows_without_absent session ((id, row) ∷ rows) j h =
    ground (arith, rows_without_absent session rows j)

pub rows_without-IsUnique :
    (session : String) (rows : HashMap StateId Row)
    → IsUnique rows
    → IsUnique (rows_without session rows)
unfolding rows_without
rows_without-IsUnique session [] u = tt
rows_without-IsUnique session ((id, row) ∷ rows) u =
    ground (arith, rows_without-IsUnique session rows u.1, rows_without_absent session rows id u.0)

-- A device whose row goes with the session has no row left.
pub get-rows_without :
    (session : String) (rows : HashMap StateId Row) (j : StateId)
    → IsUnique rows
    → get j (rows_without session rows)
      ≡ (if is_some (get j (rows_of session rows)) then none else get j rows)
unfolding rows_of rows_without get
get-rows_without session [] j u = refl
get-rows_without session ((id, row) ∷ rows) j u = elim (Bool-cases (id == j)) [
  | inl hit ↦
      let absent : get j rows ≡ none =
        subst (λ k. get k rows ≡ none) ((id_beq_iff id j).0 hit) u.0 in
      ground (
        arith,
        hit,
        absent,
        rows_of_absent session rows j absent,
        rows_without_absent session rows j absent,
      )
  | inr miss ↦ ground (arith, miss, get-rows_without session rows j u.1)
]
