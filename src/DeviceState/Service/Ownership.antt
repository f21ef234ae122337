-- ===== src/DeviceState/Service/Ownership.antt =====
-- device-state-service: a device state belongs to the session and token that created it, until they
-- give it up; another session can only ask for it.
use drogue_cloud.Base.{
  ℕ, ◌+◌, ◌<◌, String, ◌≡◌, refl, subst, ◌∙◌, Bool, true, false, ◌&&◌, List, [], ◌∷◌, Option, none,
  some, ok, arith, inl, inr, any, Option-cases, Bool-cases, string_eq, ◌==◌, beq_refl,
  string_beq_iff,
}
use drogue_cloud.HashMap.{HashMap, get, insert, remove, get-insert, get-remove}
use drogue_cloud.HashMap.Unique.{IsUnique, insert-IsUnique}
use drogue_cloud.DeviceState.{StateId, DeviceState, DeleteOptions, id_eq, id_beq_iff}
use drogue_cloud.DeviceState.Service.{
  Env, found, Row, Db, create, delete, ping, lost_ids, get_state, created, occupied, init,
}
use drogue_cloud.DeviceState.Service.Events.{IsReliable, connection_sent, disconnect_sent}
use drogue_cloud.DeviceState.Service.History.{
  World, Call, inits, creates, deletes, pings, prunes, step,
}

-- The session and the token that a device state belongs to.
abbrev pub owner : Db → StateId → Option (String × String)
owner db id = elim (get id db.states) [ none ↦ none | some row ↦ some (row.session, row.token) ]

-- The call is no delete by the owner of the device, and no pruning.
abbrev pub Respects : String × String → StateId → Call → Type 0
Respects o id (deletes session other token opts) =
    (id ≡ other) × (o.0 ≡ session) × (o.1 ≡ token) → ⊥
Respects o id (prunes nows) = ⊥
Respects o id _ = Unit

owner-create :
    (env : Env) (db : Db) (s t : String) (other id : StateId) (state : DeviceState) (now : ℕ)
    (o : String × String)
    → owner db id ≡ some o
    → owner (create env db s other t state now).1 id ≡ some o
unfolding create
owner-create env db s t other id state now o h = elim (Option-cases (get other db.states)) [
  | inr (row, e) ↦
      let kept : Row = record row { lost = true } in
      ground (arith, h, e, get-insert other id kept db.states, id_beq_iff other id)
  | inl e ↦
      let row : Row = record {
        session = s;
        token = t;
        created = now;
        lost = false;
        data_of = some state;
      } in
      ground (arith, h, e, get-insert other id row db.states, id_beq_iff other id)
]

owner-delete :
    (env : Env) (db : Db) (s t : String) (other id : StateId) (opts : DeleteOptions)
    (session token : String)
    → owner db id ≡ some (session, token)
    → ((id ≡ other) × (session ≡ s) × (token ≡ t) → ⊥)
    → owner (delete env db s other t opts).1 id ≡ some (session, token)
unfolding delete
owner-delete env db s t other id opts session token h foreign = ground (
  arith,
  h,
  get-remove other id db.states,
  id_beq_iff other id,
  string_beq_iff session s,
  string_beq_iff token t,
)

-- Whatever the registry and the sink answer: no call but pruning, and a delete with the session and
-- the token of the owner, takes a state away from its owner or gives it to another.
pub owner-step :
    (env : Env) (timeout : ℕ) (w : World) (c : Call) (id : StateId) (session token : String)
    → owner w.db id ≡ some (session, token)
    → Respects (session, token) id c
    → owner (step env timeout w c).db id ≡ some (session, token)
unfolding step
owner-step env timeout w (inits s now) id session token h foreign = unfold init in h
owner-step env timeout w (pings s now) id session token h foreign = unfold ping in ground (arith, h)
owner-step env timeout w (creates s other t state now) id session token h foreign =
    owner-create env w.db s t other id state now (session, token) h
owner-step env timeout w (deletes s other t opts) id session token h foreign =
    owner-delete env w.db s t other id opts session token h foreign
owner-step env timeout w (prunes nows) id session token h foreign = absurd foreign

-- A ping lists a device exactly if the session has its state and another session asked for it.
asked_for : String → Option Row → Bool
asked_for session none = false
asked_for session (some row) = row.session == session && row.lost

lost_ids_absent :
    (session : String) (states : HashMap StateId Row) (id : StateId)
    → get id states ≡ none
    → any (λ j. j == id) (lost_ids session states) ≡ false
unfolding lost_ids get
lost_ids_absent session [] id h = refl
lost_ids_absent session ((j, row) ∷ rows) id h = ground (arith, lost_ids_absent session rows id)

lost_ids_lem :
    (session : String) (states : HashMap StateId Row) (id : StateId)
    → IsUnique states
    → any (λ j. j == id) (lost_ids session states) ≡ asked_for session (get id states)
unfolding lost_ids get asked_for
lost_ids_lem session [] id u = refl
lost_ids_lem session ((j, row) ∷ rows) id u = elim (Bool-cases (j == id)) [
  | inl hit ↦
      let absent : get id rows ≡ none =
        subst (λ k. get k rows ≡ none) ((id_beq_iff j id).0 hit) u.0 in
      ground (arith, hit, lost_ids_absent session rows id absent)
  | inr miss ↦ ground (arith, miss, lost_ids_lem session rows id u.1)
]

-- When another session asks for a device, the owner keeps the state, nothing is sent, and the
-- owner's next ping in time lists the device.
ping-create_occupied :
    (env : Env) (db : Db) (timeout now later last : ℕ) (session token : String) (id : StateId)
    (state : DeviceState) (row : Row)
    → IsUnique db.states
    → env.lookup id.application ≡ found
    → get id db.states ≡ some row
    → get row.session db.sessions ≡ some last
    → later < last + timeout
    → let r = create env db session id token state now in
      (r.0 ≡ (ok occupied, []))
      × ((ids : List StateId) × ((ping r.1 timeout row.session later).0 ≡ ok (later + timeout, ids))
          × (any (λ j. j == id) ids ≡ true))
unfolding create ping asked_for
ping-create_occupied env db timeout now later last session token id state row u known is alive
      early =
    let kept : Row = record row { lost = true } in
    let states = insert id kept db.states in
    (
      ground (arith, known, is),
      (
        lost_ids row.session states,
        ground (arith, known, is, alive, early),
        lost_ids_lem row.session states id (insert-IsUnique id kept db.states u)
            ∙ ground (arith, get-insert id id kept db.states, beq_refl id, beq_refl row.session),
      ),
    )

-- Handing a device over, with a registry and a sink that answer well: the owner deletes its state
-- with its own session and token, and the other session then creates its own, which is what the
-- service shows.
create-delete_handover :
    (env : Env) (db : Db) (session token : String) (id : StateId) (state : DeviceState) (row : Row)
    (opts : DeleteOptions) (now last : ℕ)
    → IsReliable env
    → get id db.states ≡ some row
    → get session db.sessions ≡ some last
    → let freed = (delete env db row.session id row.token opts).1 in
      let r = create env freed session id token state now in
      (get_state freed id ≡ none)
      × (r.0.0 ≡ ok created)
      × (get_state r.1 id ≡ some (now, state))
      × (owner r.1 id ≡ some (session, token))
unfolding create delete get_state
create-delete_handover env db session token id state row opts now last reliable is alive =
    let new_row : Row = record {
      session = session;
      token = token;
      created = now;
      lost = false;
      data_of = some state;
    } in
    let freed = remove id db.states in
    let free : get id freed ≡ none = get-remove id id db.states ∙ rw (beq_refl id) in
    let facts : (get id (insert id new_row freed) ≡ some new_row) =
      get-insert id id new_row freed ∙ rw (beq_refl id) in
    ground (
      arith,
      is,
      alive,
      free,
      facts,
      reliable.known id.application,
      disconnect_sent env reliable id row opts,
      connection_sent env reliable id (some state.device_uid) true,
      beq_refl row.session,
      beq_refl row.token,
    )
