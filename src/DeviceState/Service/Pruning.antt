-- ===== src/DeviceState/Service/Pruning.antt =====
-- device-state-service: `prune` ends, leaves no expired session, and takes nothing from the others.

use drogue_cloud.Base.{
  ℕ, ◌+◌, ◌<◌, ◌≤◌, String, ◌≡◌, subst, ◌∙◌, ◌⊎◌, true, false, List, [], ◌∷◌, ◌++◌, none, some, ok,
  err, arith, inl, inr, All, length, is_some, Option-cases, Result-cases, string_eq, ◌==◌, beq_refl,
  string_beq_iff,
}
use drogue_cloud.HashMap.{HashMap, get, remove, get-remove}
use drogue_cloud.HashMap.Unique.{IsUnique, remove-IsUnique}
use drogue_cloud.HashMap.Size.{length-remove-lt}
use drogue_cloud.DeviceState.{StateId, id_eq}
use drogue_cloud.DeviceState.Service.{Env, Event, ServiceError, Row, Db, Sends}
use drogue_cloud.DeviceState.Service.Pruner.{next_expired, rows_without, prune_session, prune}

-- The session found is there, and has expired.
next_expired_sound :
    (sessions : HashMap String ℕ) (timeout now : ℕ) (next : String × ℕ)
    → next_expired sessions timeout now ≡ some next
    → (is_some (get next.0 sessions) ≡ true) × (next.1 + timeout ≤ now)
unfolding next_expired get
next_expired_sound [] timeout now next h = cc
next_expired_sound ((s, last) ∷ sessions) timeout now next h =
    elim (Option-cases (next_expired sessions timeout now)) [
      | inl e ↦ ground (arith, e, h, beq_refl s)
      | inr (other, e) ↦
          ground (arith, e, h, beq_refl s, next_expired_sound sessions timeout now other e)
    ]

-- Where none is found, every session is alive.
next_expired_complete :
    (sessions : HashMap String ℕ) (timeout now : ℕ) (session : String) (last : ℕ)
    → next_expired sessions timeout now ≡ none
    → get session sessions ≡ some last
    → now < last + timeout
unfolding next_expired get
next_expired_complete [] timeout now session last h is = cc
next_expired_complete ((s, l) ∷ sessions) timeout now session last h is =
    elim (Option-cases (next_expired sessions timeout now)) [
      | inl e ↦ ground (arith, e, h, next_expired_complete sessions timeout now session last e)
      | inr (other, e) ↦ ground (arith, e, h)
    ]

sessions-prune_session :
    (env : Env) (db : Db) (session : String)
    → (prune_session env db session).0.0 ≡ ok tt
    → (prune_session env db session).1
      ≡ record { sessions = remove session db.sessions; states = rows_without session db.states }
unfolding prune_session
sessions-prune_session env db session h = ground arith

-- With more rounds than sessions the loop ends, whatever the registry and the sink answer.
pub prune_total :
    (env : Env) (timeout : ℕ) (nows : List ℕ) (db : Db)
    → length db.sessions < length nows
    → (r : Sends Unit × Db) × (prune env timeout nows db ≡ some r)
unfolding prune
prune_total env timeout [] db h = absurd (omega arith)
prune_total env timeout (now ∷ nows) db h =
    elim (Option-cases (next_expired db.sessions timeout now)) [
      | inl e ↦ (((ok tt, []), db), ground (arith, e))
      | inr (next, e) ↦
          let round = prune_session env db next.0 in
          elim (Result-cases round.0.0) [
            | inr (error, failed) ↦ (round, ground (arith, e, failed))
            | inl (_, done) ↦
                let (rest, ends) = prune_total env timeout nows round.1 (fewer next e done) in
                (((rest.0.0, rest.0.1 ++ round.0.1), rest.1), ground (arith, e, done, ends))
          ]
    ]
  where
    fewer :
        (next : String × ℕ)
        → next_expired db.sessions timeout now ≡ some next
        → (prune_session env db next.0).0.0 ≡ ok tt
        → length (prune_session env db next.0).1.sessions < length nows
    fewer next e done = elim (Option-cases (get next.0 db.sessions)) [
      | inl none_left ↦ ground (arith, none_left, next_expired_sound db.sessions timeout now next e)
      | inr (last, is) ↦
          let smaller = length-remove-lt next.0 db.sessions last is in
          rw (sessions-prune_session env db next.0 done) (omega (arith, smaller))
    ]

-- The clock readings of the rounds, one of which the property holds at.
abbrev pub SomeReading : (ℕ → Type 0) → List ℕ → Type 0
SomeReading P [] = ⊥
SomeReading P (now ∷ nows) = P now ⊎ SomeReading P nows

-- Every session of the tables was pinged in time.
abbrev pub AllAlive : ℕ → Db → ℕ → Type 0
AllAlive timeout db now =
    (session : String) (last : ℕ) → get session db.sessions ≡ some last → now < last + timeout

-- What a run that ends well leaves: at the clock reading of its last round every session that is
-- left was alive.
prune-AllAlive :
    (env : Env) (timeout : ℕ) (nows : List ℕ) (db db' : Db) (events : List Event)
    → prune env timeout nows db ≡ some ((ok tt, events), db')
    → SomeReading (AllAlive timeout db') nows
unfolding prune
prune-AllAlive env timeout [] db db' events h = cc
prune-AllAlive env timeout (now ∷ nows) db db' events h =
    elim (Option-cases (next_expired db.sessions timeout now)) [
      | inl e ↦ inl (λ session last is.
          let same : db ≡ db' = ground (arith, e, h) in
          next_expired_complete db'.sessions timeout now session last
            (subst (λ d. next_expired d.sessions timeout now ≡ none) same e) is)
      | inr (next, e) ↦
          let round = prune_session env db next.0 in
          elim (Result-cases round.0.0) [
            | inr (error, failed) ↦ absurd (ground (arith, e, failed, h))
            | inl (_, done) ↦ elim (Option-cases (prune env timeout nows round.1)) [
              | inl stuck ↦ absurd (ground (arith, e, done, stuck, h))
              | inr (rest, ends) ↦ inr (
                  prune-AllAlive env timeout nows round.1 db' rest.0.1
                    (ground (arith, e, done, ends, h)))
            ]
          ]
    ]

next_expired_entry :
    (sessions : HashMap String ℕ) (timeout now : ℕ) (next : String × ℕ)
    → IsUnique sessions
    → next_expired sessions timeout now ≡ some next
    → get next.0 sessions ≡ some next.1
unfolding next_expired get
next_expired_entry [] timeout now next u h = cc
next_expired_entry ((s, last) ∷ sessions) timeout now next u h =
    elim (Option-cases (next_expired sessions timeout now)) [
      | inl e ↦ ground (arith, e, h, beq_refl s)
      | inr (other, e) ↦ ground (
        arith,
        e,
        h,
        u.0,
        beq_refl s,
        string_beq_iff s other.0,
        next_expired_entry sessions timeout now other u.1 e,
      )
    ]

get-rows_without_ne :
    (session : String) (rows : HashMap StateId Row) (id : StateId) (row : Row)
    → get id rows ≡ some row
    → (row.session == session) ≡ false
    → get id (rows_without session rows) ≡ some row
unfolding rows_without get
get-rows_without_ne session [] id row h ne = cc
get-rows_without_ne session ((j, r) ∷ rows) id row h ne =
    ground (arith, h, ne, get-rows_without_ne session rows id row)

prune_session_failed :
    (env : Env) (db : Db) (session : String) (error : ServiceError)
    → (prune_session env db session).0.0 ≡ err error
    → (prune_session env db session).1 ≡ db
unfolding prune_session
prune_session_failed env db session error h = ground arith

-- A session that is alive at every clock reading keeps its states, also where the run fails.
prune_keeps_alive :
    (env : Env) (timeout : ℕ) (nows : List ℕ) (db : Db) (r : Sends Unit × Db) (id : StateId)
    (row : Row) (last : ℕ)
    → IsUnique db.sessions
    → get id db.states ≡ some row
    → get row.session db.sessions ≡ some last
    → All (λ now. now < last + timeout) nows
    → prune env timeout nows db ≡ some r
    → (get id r.1.states ≡ some row) × (get row.session r.1.sessions ≡ some last)
unfolding prune
prune_keeps_alive env timeout [] db r id row last u is in_time alive h = cc
prune_keeps_alive env timeout (now ∷ nows) db r id row last u is in_time alive h =
    elim (Option-cases (next_expired db.sessions timeout now)) [
      | inl e ↦ ground (arith, e, h, is, in_time)
      | inr (next, e) ↦
          let round = prune_session env db next.0 in
          elim (Result-cases round.0.0) [
            | inr (error, failed) ↦
                ground (
                  arith,
                  e,
                  failed,
                  h,
                  is,
                  in_time,
                  prune_session_failed env db next.0 error failed,
                )
            | inl (_, done) ↦ elim (Option-cases (prune env timeout nows round.1)) [
              | inl stuck ↦ absurd (ground (arith, e, done, stuck, h))
              | inr (rest, ends) ↦
                  let other : (row.session == next.0) ≡ false = spared next e in
                  let left = sessions-prune_session env db next.0 done in
                  let kept =
                    prune_keeps_alive env timeout nows round.1 rest id row last
                      (rw left (remove-IsUnique next.0 db.sessions u))
                      (rw left (get-rows_without_ne next.0 db.states id row is other))
                      (rw left (
                        get-remove next.0 row.session db.sessions
                        ∙ ground (
                          arith,
                          other,
                          in_time,
                          string_beq_iff row.session next.0,
                          string_beq_iff next.0 row.session,
                        )))
                      alive.1 ends in
                  ground (arith, e, done, ends, h, kept)
            ]
          ]
    ]
  where
    spared :
        (next : String × ℕ)
        → next_expired db.sessions timeout now ≡ some next
        → (row.session == next.0) ≡ false
    spared next e = ground (
      arith,
      in_time,
      alive.0,
      string_beq_iff row.session next.0,
      next_expired_entry db.sessions timeout now next u e,
      next_expired_sound db.sessions timeout now next e,
    )
