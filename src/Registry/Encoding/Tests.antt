-- ===== src/Registry/Encoding/Tests.antt =====
-- The encoding of an event with a crate that keeps the attributes.
use drogue_cloud.Base.{String, ◌≡◌, refl, List, Option, none, some, ok, arith}
use drogue_cloud.Registry.{Event, device_event}
use drogue_cloud.Registry.Encoding.{
  Attribute, subject_in, type_in, data_in, extension_in, EventCrate, attributes_of, to_cloud_event,
  from_cloud_event, from_cloud_event-to_cloud_event,
}

abbrev type_or_empty : Option String → String
type_or_empty none = ""
type_or_empty (some t) = t

same_type :
    (given built : List Attribute) (t : String)
    → some given ≡ some built
    → type_in given ≡ some t
    → type_or_empty (type_in built) ≡ t
same_type given built t same is = ground (arith, same, is)

keeper_of :
    {A : Type 0}
    → (f : List Attribute → A) (given built : List Attribute) → some given ≡ some built
    → f built ≡ f given
keeper_of f given built same = ground (arith, same)

abbrev crate : EventCrate (List Attribute)
crate = record {
  build = λ given. some given;
  ty = λ built. type_or_empty (type_in built);
  subject_of = subject_in;
  extension_of = extension_in;
  data_of = data_in;
  built_type = same_type;
  built_subject = keeper_of subject_in;
  built_extension = λ name. keeper_of (extension_in name);
  built_data = keeper_of data_in;
}

abbrev moved : Event
moved = device_event "i" "shop" "door" 5 ".spec" 4

from_cloud_event-to_cloud_event_example :
    from_cloud_event crate (attributes_of "id" "now" moved) ≡ ok moved
unfolding to_cloud_event
from_cloud_event-to_cloud_event_example =
    from_cloud_event-to_cloud_event crate "id" "now" moved (attributes_of "id" "now" moved) refl
