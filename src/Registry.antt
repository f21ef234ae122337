-- ===== src/Registry.antt =====
-- The registry of applications and devices: device-management-service/src/service, with the tables of
-- database-common/src/models and the events of registry-events/src/lib.rs. UUIDs are numbers, and
-- the nil UUID is 0; random ones and the time are arguments of the operations.
pub mod Advance
pub mod Diff
pub mod Versions
pub mod Outbox
pub mod Encoding
pub mod Tables
pub mod Statements
pub mod Entities
pub mod Management
pub mod Select
use drogue_cloud.Base.{
  ℕ, String, ◌≡◌, ◌↔◌, Bool, true, ◌&&◌, List, [], ◌∷◌, map, Option, arith, PartialEq, string_eq,
  ◌==◌, string_beq_iff,
}
use drogue_cloud.HashMap.{HashMap}
use drogue_cloud.Authz.{Role}

pub data ServiceError : Type 0 where
  internal not_authorized not_found conflict reference_not_found bad_request : ServiceError
  unique_violation foreign_key_violation : ServiceError

-- A section of the data of a resource: an object with its fields, or any other value.
pub data Section (Json : Type 0) : Type 0 where
  fields : HashMap String Json → Section Json
  scalar : Json → Section Json

abbrev pub Sections : Type 0 → Type 0
Sections Json = HashMap String (Section Json)

-- The columns that applications and devices both have; the data is an object of sections.
pub record Entity (Labels Json : Type 0) : Type 0 where
  pub uid : ℕ
  pub labels : Labels
  pub annotations : Labels
  pub creation_timestamp : ℕ
  pub resource_version : ℕ
  pub generation : ℕ
  pub revision : ℕ
  pub deletion_timestamp : Option ℕ
  pub finalizers : List String
  pub sections : Sections Json

pub record App (Labels Json : Type 0) : Type 0 where
  pub entity : Entity Labels Json
  pub owner : Option String
  pub transfer_owner : Option String
  pub members : HashMap String Role

pub record DeviceKey : Type 0 where
  pub app : String
  pub device : String

abbrev pub device_key_beq : DeviceKey → DeviceKey → Bool
device_key_beq a b = a.app == b.app && a.device == b.device

pub device_key_beq_iff : (a b : DeviceKey) → (device_key_beq a b ≡ true) ↔ (a ≡ b)
device_key_beq_iff a b =
    ground (arith, string_beq_iff a.app b.app, string_beq_iff a.device b.device)

instance abbrev pub device_key_eq : PartialEq DeviceKey
device_key_eq = record { equals = device_key_beq; equals_iff = device_key_beq_iff }

pub data Event : Type 0 where
  app_event : String → String → ℕ → String → ℕ → Event
  device_event : String → String → String → ℕ → String → ℕ → Event

-- A change of no path in particular is one of ".".
unfoldable pub new_change : List String → (String → Event) → List Event
new_change [] make = make "." ∷ []
new_change (path ∷ paths) make = map make (path ∷ paths)

unfoldable pub new_app : String → String → ℕ → ℕ → List String → List Event
unfolding new_change
new_app instance_id app uid revision paths =
    new_change paths (λ path. app_event instance_id app uid path revision)

unfoldable pub new_device : String → String → String → ℕ → ℕ → List String → List Event
unfolding new_change
new_device instance_id app device uid revision paths =
    new_change paths (λ path. device_event instance_id app device uid path revision)
