-- ===== src/Registry/Encoding.antt =====
-- registry-events/src/lib.rs: events of the registry as cloud events. The crate cloudevents is a
-- parameter: a builder takes attributes, each of which is then read from the event that it builds.
pub mod Tests
use Prim.Native.String.{◌++◌ as str_append}
use drogue_cloud.Base.{
  ℕ, String, ◌≡◌, refl, List, [], ◌∷◌, Option, none, some, Result, ok, err, arith, string_eq, ◌==◌,
  ◌>>=◌, if◌then◌else◌,
}
use drogue_cloud.Registry.{Event, app_event, device_event}

pub record EventData : Type 0 where
  pub revision : ℕ
  pub uid : ℕ

pub data Attribute : Type 0 where
  id time source subject type : String → Attribute
  extension : String → String → Attribute
  event_data : EventData → Attribute

pub data EventError : Type 0 where
  parse missing_field unknown_type : String → EventError
  builder : EventError

-- The attributes that are given to a builder, each at most once.
abbrev pub subject_in : List Attribute → Option String
subject_in [] = none
subject_in (subject s ∷ given) = some s
subject_in (a ∷ given) = subject_in given

abbrev pub type_in : List Attribute → Option String
type_in [] = none
type_in (type s ∷ given) = some s
type_in (a ∷ given) = type_in given

abbrev pub data_in : List Attribute → Option EventData
data_in [] = none
data_in (event_data d ∷ given) = some d
data_in (a ∷ given) = data_in given

abbrev pub extension_in : String → List Attribute → Option String
extension_in name [] = none
extension_in name (extension n v ∷ given) = if n == name then some v else extension_in name given
extension_in name (a ∷ given) = extension_in name given

-- The crate, with the encoding of the data given JSON.
pub record EventCrate (Built : Type 0) : Type 0 where
  pub build : List Attribute → Option Built
  pub ty : Built → String
  pub subject_of : Built → Option String
  pub extension_of : String → Built → Option String
  pub data_of : Built → Option EventData
  pub built_type :
      (given : List Attribute) (e : Built) (t : String)
      → build given ≡ some e
      → type_in given ≡ some t
      → ty e ≡ t
  pub built_subject :
      (given : List Attribute) (e : Built) → build given ≡ some e → subject_of e ≡ subject_in given
  pub built_extension :
      (name : String) (given : List Attribute) (e : Built)
      → build given ≡ some e
      → extension_of name e ≡ extension_in name given
  pub built_data :
      (given : List Attribute) (e : Built) → build given ≡ some e → data_of e ≡ data_in given

abbrev pub slashed : String → String → String
slashed a b = str_append a (str_append "/" b)

-- What an event is made of; the id is drawn, and the time is read from the clock.
unfoldable pub attributes_of : String → String → Event → List Attribute
attributes_of new_id now (app_event instance_id app uid path revision) =
    id new_id
    ∷ time now
    ∷ type "io.drogue.registry.change.application"
    ∷ source (str_append "drogue:/" (slashed instance_id app))
    ∷ subject path
    ∷ extension "partitionkey" (slashed instance_id app)
    ∷ extension "instance" instance_id
    ∷ extension "application" app
    ∷ event_data (record { revision = revision; uid = uid })
    ∷ []
attributes_of new_id now (device_event instance_id app device uid path revision) =
    id new_id
    ∷ time now
    ∷ type "io.drogue.registry.change.device"
    ∷ source (str_append "drogue:/" (slashed instance_id (slashed app device)))
    ∷ subject path
    ∷ extension "partitionkey" (slashed instance_id (slashed app device))
    ∷ extension "instance" instance_id
    ∷ extension "application" app
    ∷ extension "device" device
    ∷ event_data (record { revision = revision; uid = uid })
    ∷ []

abbrev pub or_fail : {A : Type 0} → Option A → EventError → Result EventError A
or_fail none e = err e
or_fail (some a) e = ok a

or_fail_lem :
    {A : Type 0} → (o : Option A) (e : EventError) (a : A) → or_fail o e ≡ ok a → o ≡ some a
or_fail_lem none e a h = absurd (ground (arith, h))
or_fail_lem (some b) e a h = ground (arith, h)

module _ {Built : Type 0} (crate : EventCrate Built) where
  unfoldable pub to_cloud_event : String → String → Event → Result EventError Built
  unfolding attributes_of
  to_cloud_event new_id now event = or_fail (crate.build (attributes_of new_id now event)) builder

  unfoldable pub get_data : Built → Result EventError EventData
  get_data e = or_fail (crate.data_of e) (parse "Missing or unrecognized event payload")

  unfoldable pub from_app : Built → Result EventError Event
  unfolding get_data
  from_app e = do
    payload ← get_data e
    instance_id ← or_fail (crate.extension_of "instance" e) (missing_field "instance")
    app ← or_fail (crate.extension_of "application" e) (missing_field "application")
    path ← or_fail (crate.subject_of e) (missing_field "subject")
    ok (app_event instance_id app payload.uid path payload.revision)

  unfoldable pub from_device : Built → Result EventError Event
  unfolding get_data
  from_device e = do
    payload ← get_data e
    instance_id ← or_fail (crate.extension_of "instance" e) (missing_field "instance")
    app ← or_fail (crate.extension_of "application" e) (missing_field "application")
    device ← or_fail (crate.extension_of "device" e) (missing_field "device")
    path ← or_fail (crate.subject_of e) (missing_field "subject")
    ok (device_event instance_id app device payload.uid path payload.revision)

  unfoldable pub from_cloud_event : Built → Result EventError Event
  unfolding from_app from_device
  from_cloud_event e =
      if crate.ty e == "io.drogue.registry.change.application"
      then from_app e
      else if crate.ty e == "io.drogue.registry.change.device"
      then from_device e
      else err (unknown_type (crate.ty e))

  -- An event that is made into a cloud event is read back from it given it was.
  pub from_cloud_event-to_cloud_event :
      (new_id now : String) (event : Event) (e : Built)
      → to_cloud_event new_id now event ≡ ok e
      → from_cloud_event e ≡ ok event
  unfolding to_cloud_event from_cloud_event
  from_cloud_event-to_cloud_event new_id now (app_event instance_id app uid path revision) e h =
      let event = app_event instance_id app uid path revision in
      let given = attributes_of new_id now event in
      let built : crate.build given ≡ some e = or_fail_lem (crate.build given) builder e h in
      rw (crate.built_type given e "io.drogue.registry.change.application" built refl) (
        ground (
          arith,
          crate.built_subject given e built,
          crate.built_extension "instance" given e built,
          crate.built_extension "application" given e built,
          crate.built_data given e built,
        ))
  from_cloud_event-to_cloud_event new_id now (device_event instance_id app device uid path revision)
        e h =
      let event = device_event instance_id app device uid path revision in
      let given = attributes_of new_id now event in
      let built : crate.build given ≡ some e = or_fail_lem (crate.build given) builder e h in
      rw (crate.built_type given e "io.drogue.registry.change.device" built refl) (
        ground (
          arith,
          crate.built_subject given e built,
          crate.built_extension "instance" given e built,
          crate.built_extension "application" given e built,
          crate.built_extension "device" given e built,
          crate.built_data given e built,
        ))
