-- ===== src/DeviceState/Mux/Watchers.antt =====
-- service-common/src/state/mux.rs: what becomes of the watchers.
use mathlib.Core.List.{Perm, perm_middle, map-append, perm_append_comm, append_assoc}
use mathlib.Core.List.Perm
use drogue_cloud.Base.{
  ℕ, zero, suc, String, ◌≡◌, ◌≢◌, List, [], ◌∷◌, ◌++◌, map, some, arith, inl, inr, Option-cases,
  Bool-cases, string_eq, ◌==◌, beq_ne, beq_refl,
}
use drogue_cloud.HashMap.{HashMap, get, insert, remove, remove_absent, get-insert}
use drogue_cloud.HashMap.Unique.{IsUnique, insert-IsUnique, remove-IsUnique, remove-perm}
use drogue_cloud.DeviceState.{StateId, id_eq}
use drogue_cloud.DeviceState.Mux.{Mux, MuxEntry, Notice, new, handle_lost, added, delete}

-- The channels of the watchers that wait.
abbrev pub waiting : Mux → List ℕ
waiting mux = map (λ (p : StateId × MuxEntry). p.1.tx) mux.handles

-- The channels of notices.
abbrev pub told : List Notice → List ℕ
told = map (λ (n : Notice). n.0)

remove-waiting :
    (id : StateId) (handles : HashMap StateId MuxEntry) (entry : MuxEntry)
    → IsUnique handles
    → get id handles ≡ some entry
    → Perm
        (waiting (record { handles = handles }))
        (entry.tx ∷ waiting (record { handles = remove id handles }))
remove-waiting id handles entry u h = Perm.map _ (remove-perm id handles entry u h)

-- A watcher that leaves the map is told why, once, and no other is told anything.
handle_lost-perm :
    (mux : Mux) (id : StateId)
    → IsUnique mux.handles
    → Perm (told (handle_lost mux id).1 ++ waiting (handle_lost mux id).0) (waiting mux)
unfolding handle_lost
handle_lost-perm mux id u = elim (Option-cases (get id mux.handles)) [
  | inl e ↦ rw (e, handle_lost) Perm.rfl
  | inr (entry, e) ↦ rw (e, handle_lost) (Perm.symm (remove-waiting id mux.handles entry u e))
]

delete-perm :
    (mux : Mux) (id : StateId) (token : String)
    → IsUnique mux.handles
    → Perm (told (delete mux id token).1 ++ waiting (delete mux id token).0) (waiting mux)
unfolding delete
delete-perm mux id token u = elim (Option-cases (get id mux.handles)) [
  | inl e ↦ rw (e, delete) Perm.rfl
  | inr (entry, e) ↦ elim (Bool-cases (entry.token == token)) [
    | inl own ↦ rw (e, delete) (rw own (Perm.symm (remove-waiting id mux.handles entry u e)))
    | inr other ↦ rw (e, delete) (rw other Perm.rfl)
  ]
]

added-perm :
    (mux : Mux) (id : StateId) (token : String) (tx : ℕ)
    → IsUnique mux.handles
    → Perm (told (added mux id token tx).1 ++ waiting (added mux id token tx).0) (tx ∷ waiting mux)
unfolding added insert
added-perm mux id token tx u = elim (Option-cases (get id mux.handles)) [
  | inl e ↦ rw (e, added) (rw (remove_absent id mux.handles e) Perm.rfl)
  | inr (old, e) ↦
      rw (e, added)
        (Perm.trans (Perm.swap tx old.tx _)
          (Perm.cons tx (Perm.symm (remove-waiting id mux.handles old u e))))
]

-- The calls that an endpoint makes, each `add` with a new channel.
pub data Call : Type 0 where
  lose : StateId → Call
  add delete_state : StateId → String → Call

pub record World : Type 0 where
  pub mux : Mux
  pub notices : List Notice
  pub next : ℕ

abbrev pub start : World
start = record { mux = new; notices = []; next = 0 }

abbrev after : World → ℕ → Mux × List Notice → World
after w next (mux, sent) = record { mux = mux; notices = sent ++ w.notices; next = next }

unfoldable pub step : World → Call → World
step w (lose id) = after w w.next (handle_lost w.mux id)
step w (add id token) = after w (suc w.next) (added w.mux id token w.next)
step w (delete_state id token) = after w w.next (delete w.mux id token)

unfoldable pub run : World → List Call → World
run w [] = w
run w (c ∷ cs) = run (step w c) cs

-- The channels made so far.
abbrev pub made : ℕ → List ℕ
made zero = []
made (suc n) = n ∷ made n

record Conserves (w : World) : Type 0 where
  unique : IsUnique w.mux.handles
  all : Perm (told w.notices ++ waiting w.mux) (made w.next)

-- Notices of one call go in front of those before it.
told-after :
    (sent old : List Notice) (rest before : List ℕ)
    → Perm (told sent ++ rest) before
    → Perm (told (sent ++ old) ++ rest) (told old ++ before)
told-after sent old rest before h = rw (map-append (λ (n : Notice). n.0) sent old) (
    Perm.trans (Perm.append_right rest (perm_append_comm (told sent) (told old)))
      (rw append_assoc (Perm.append_left (told old) h)))

handle_lost-IsUnique :
    (mux : Mux) (id : StateId) → IsUnique mux.handles → IsUnique (handle_lost mux id).0.handles
unfolding handle_lost
handle_lost-IsUnique mux id u = ground (arith, remove-IsUnique id mux.handles u)

delete-IsUnique :
    (mux : Mux) (id : StateId) (token : String)
    → IsUnique mux.handles
    → IsUnique (delete mux id token).0.handles
unfolding delete
delete-IsUnique mux id token u = ground (arith, remove-IsUnique id mux.handles u)

added-IsUnique :
    (mux : Mux) (id : StateId) (token : String) (tx : ℕ)
    → IsUnique mux.handles
    → IsUnique (added mux id token tx).0.handles
unfolding added
added-IsUnique mux id token tx u =
    ground (arith, insert-IsUnique id (record { token = token; tx = tx }) mux.handles u)

step-Conserves : (w : World) (c : Call) → Conserves w → Conserves (step w c)
unfolding step
step-Conserves w (lose id) v = record {
  unique = handle_lost-IsUnique w.mux id v.unique;
  all = Perm.trans (told-after _ w.notices _ _ (handle_lost-perm w.mux id v.unique)) v.all;
}
step-Conserves w (delete_state id token) v = record {
  unique = delete-IsUnique w.mux id token v.unique;
  all = Perm.trans (told-after _ w.notices _ _ (delete-perm w.mux id token v.unique)) v.all;
}
step-Conserves w (add id token) v = record {
  unique = added-IsUnique w.mux id token w.next v.unique;
  all =
      Perm.trans (told-after _ w.notices _ _ (added-perm w.mux id token w.next v.unique))
        (Perm.trans (perm_middle (told w.notices) (waiting w.mux)) (Perm.cons w.next v.all));
}

run-Conserves : (w : World) (cs : List Call) → Conserves w → Conserves (run w cs)
unfolding run
run-Conserves w [] v = v
run-Conserves w (c ∷ cs) v = run-Conserves (step w c) cs (step-Conserves w c v)

-- After any calls, each watcher that was ever handed out either still waits or was told why it
-- lost its state, and not both, and was told once: the channels of the notices and of the map
-- are together the channels made, each one time.
pub run-watchers-perm :
    (cs : List Call)
    → Perm (told (run start cs).notices ++ waiting (run start cs).mux) (made (run start cs).next)
run-watchers-perm cs = (run-Conserves start cs (record { unique = tt; all = Perm.rfl })).all

-- A delete that arrives after another session took the device over, with the old token, changes
-- nothing and tells nobody.
delete-added_stale :
    (mux : Mux) (id : StateId) (old token : String) (tx : ℕ)
    → token ≢ old
    → delete (added mux id token tx).0 id old ≡ ((added mux id token tx).0, [])
unfolding delete added
delete-added_stale mux id old token tx ne =
    let entry : MuxEntry = record { token = token; tx = tx } in
    ground (arith, get-insert id id entry mux.handles, beq_refl id, beq_ne token old ne)
