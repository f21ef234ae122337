-- ===== src/DeviceState/Mux.antt =====
-- service-common/src/state/mux.rs: the watchers of one endpoint. Each has a oneshot channel, named
-- by a number; a notice is a value sent into one.
pub mod Watchers
use drogue_cloud.Base.{
  ℕ, String, Bool, List, [], ◌∷◌, Option, none, some, string_eq, ◌==◌, if◌then◌else◌,
}
use drogue_cloud.HashMap.{HashMap, get, insert, remove}
use drogue_cloud.DeviceState.{StateId, id_eq}

pub data LostCause : Type 0 where
  new_registration reported deleted : LostCause

pub record MuxEntry : Type 0 where
  pub token : String
  pub tx : ℕ

pub record Mux : Type 0 where
  pub handles : HashMap StateId MuxEntry

abbrev pub Notice : Type 0
Notice = ℕ × LostCause

abbrev pub new : Mux
new = record { handles = [] }

unfoldable pub handle_lost : Mux → StateId → Mux × List Notice
handle_lost mux id = elim (get id mux.handles) [
  | none ↦ (mux, [])
  | some entry ↦ (record { handles = remove id mux.handles }, (entry.tx, reported) ∷ [])
]

-- `tx` is the sender of the channel that the call creates.
unfoldable pub added : Mux → StateId → String → ℕ → Mux × List Notice
added mux id token tx =
    let handles = insert id (record { token = token; tx = tx }) mux.handles in
    elim (get id mux.handles) [
      | none ↦ (record { handles = handles }, [])
      | some old ↦ (record { handles = handles }, (old.tx, new_registration) ∷ [])
    ]

unfoldable pub delete : Mux → StateId → String → Mux × List Notice
delete mux id token = elim (get id mux.handles) [
  | none ↦ (mux, [])
  | some entry ↦
      if entry.token == token
      then (record { handles = remove id mux.handles }, (entry.tx, deleted) ∷ [])
      else (mux, [])
]
