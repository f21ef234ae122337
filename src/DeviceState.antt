-- ===== src/DeviceState.antt =====
-- The connection state of devices, shared by the endpoints: the service (device-state-service) and
-- its client side (service-common/src/state). The data types are those of
-- service-api/src/services/device_state.rs. Times are numbers of milliseconds.
pub mod Controller
pub mod Runner
pub mod Attempts
pub mod Mux
pub mod Service
pub mod ControllerTests
pub mod Tests
use drogue_cloud.Base.{
  ℕ, String, ◌≡◌, ◌↔◌, Bool, true, ◌&&◌, List, Option, arith, PartialEq, string_eq, ◌==◌,
  string_beq_iff,
}

pub record StateId : Type 0 where
  pub application : String
  pub device : String

pub record LastWillTestament : Type 0 where
  pub channel : String
  pub payload : List ℕ
  pub content_type : Option String

pub record DeviceState : Type 0 where
  pub device_uid : String
  pub endpoint : String
  pub lwt : Option LastWillTestament

pub record DeleteOptions : Type 0 where
  pub skip_lwt : Bool

abbrev pub id_beq : StateId → StateId → Bool
id_beq a b = a.application == b.application && a.device == b.device

pub id_beq_iff : (a b : StateId) → (id_beq a b ≡ true) ↔ (a ≡ b)
id_beq_iff a b =
    ground (arith, string_beq_iff a.application b.application, string_beq_iff a.device b.device)

instance abbrev pub id_eq : PartialEq StateId
id_eq = record { equals = id_beq; equals_iff = id_beq_iff }
