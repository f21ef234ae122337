-- ===== src/Registry/Management.antt =====
-- device-management-service/src/service/management/mod.rs, with `perform_update_app` and
-- `check_clean_app` of service/mod.rs. Each operation is one transaction, whose result is the tables
-- and the events to send; `finish` commits it and sends them.
pub mod Applications
pub mod Devices
pub mod Effects
pub mod DeviceUpdates
pub mod AppUpdates
pub mod Locking
pub mod Announcing
pub mod Leftovers
pub mod Tests
use drogue_cloud.Base.{
  ℕ, ltb, String, ◌≡◌, Bool, true, false, not, ◌&&◌, List, [], ◌∷◌, ◌++◌, Option, none, some,
  Result, ok, err, is_some, is_empty, PartialEq, string_eq, ◌==◌, ◌>>=◌, ◌>>◌, if◌then◌else◌,
}
use drogue_cloud.HashMap.{get}
use drogue_cloud.Authz.{UserInformation, UserIds, Permission, ensure_with}
use drogue_cloud.Authz as Authz
use drogue_cloud.Registry.{
  Entity, App, DeviceKey, device_key_eq, ServiceError, not_authorized, not_found, conflict,
  reference_not_found, unique_violation, foreign_key_violation, Event, new_app, new_device,
}
use drogue_cloud.Registry.Advance.{advance_from, advance_revision}
use drogue_cloud.Registry.Diff.{diff_paths}
use drogue_cloud.Registry.Versions.{ParseUuid, Constraints, check_versions}
use drogue_cloud.Registry.Outbox.{notify}
use drogue_cloud.Registry.Tables.{
  Db, Fresh, TypedAlias, create_app as insert_app, update_data, delete_app as delete_app_row,
  create_device as insert_device, update_device as update_device_row,
  delete_device as delete_device_row, delete_devices, count_devices,
}
use drogue_cloud.Registry.Entities.{Resource, Specs, app_to_entity, device_to_entity}

-- How the violated constraints of an insertion or an update are reported.
abbrev pub as_conflict {ℓ} : {A : Type ℓ} → Result ServiceError A → Result ServiceError A
as_conflict (ok a) = ok a
as_conflict (err unique_violation) = err conflict
as_conflict (err e) = err e

abbrev pub as_reference {ℓ} : {A : Type ℓ} → Result ServiceError A → Result ServiceError A
as_reference (ok a) = ok a
as_reference (err unique_violation) = err conflict
as_reference (err foreign_key_violation) = err reference_not_found
as_reference (err e) = err e

abbrev pub or_error {ℓ} : {A : Type ℓ} → Option A → ServiceError → Result ServiceError A
or_error none e = err e
or_error (some a) e = ok a

-- `Vec::retain`
abbrev pub without : String → List String → List String
without name [] = []
without name (f ∷ fs) = let rest = without name fs in if f == name then rest else f ∷ rest

abbrev pub ensure_live {ℓ} : {A : Type ℓ} → Option ℕ → Result ServiceError A → Result ServiceError A
ensure_live none next = next
ensure_live (some deleted) next = err not_found

abbrev pub uid_text : Option (String × String) → String
uid_text none = ""
uid_text (some preconditions) = preconditions.0

abbrev pub version_text : Option (String × String) → String
version_text none = ""
version_text (some preconditions) = preconditions.1

abbrev pub Transaction : Type 0 → Type 0 → Type 0
Transaction Labels Json = Result ServiceError (Db Labels Json × List Event)

module _ {Labels Json : Type 0} where
  abbrev pub resource_of : App Labels Json → Authz.Resource
  resource_of app = record { owner = app.owner; members = app.members }

  -- `send_to_outbox`
  unfoldable pub send_to_outbox : ℕ → List Event → Db Labels Json → Db Labels Json
  unfolding notify
  send_to_outbox now events db = record db { outbox = notify now events db.outbox }

  abbrev pub announce : ℕ → List Event → Db Labels Json → Db Labels Json × List Event
  announce now events db = (send_to_outbox now events db, events)

  -- A transaction that fails changes nothing. A failure to send the events of one that was
  -- committed is reported, but the tables have changed, the outbox included.
  unfoldable pub finish :
      (List Event → Bool)
      → Db Labels Json
      → Transaction Labels Json
      → Result (Option ServiceError) (Unit {0}) × Db Labels Json
  finish send db (err e) = (err (some e), db)
  finish send db (ok (changed, [])) = (ok tt, changed)
  finish send db (ok (changed, event ∷ events)) =
      if send (event ∷ events) then (ok tt, changed) else (err none, changed)
