-- ===== src/Publish.antt =====
-- endpoint-common/src/sender/process/mod.rs: the rules that an application has for the events of its
-- devices and the commands to them. The rules are types of drogue-client, with the constructors that
-- the code matches on.
pub mod Processor
pub mod Conditions
pub mod Sequence
pub mod Identity
pub mod Sender
pub mod Sending
pub mod Tests
use Prim.Native.String.{len}
use text.Mathlib.Text.{starts_with, get?}
use drogue_cloud.Base.{
  leb, ◌-◌, String, Bool, true, false, not, ◌&&◌, ◌||◌, List, [], ◌∷◌, Option, none, some,
  string_eq, ◌==◌,
}

mutual
  pub data When : Type 0 where
    always : When
    not_when : When → When
    and_when : Whens → When
    or_when : Whens → When
    is_channel : String → When

  pub data Whens : Type 0 where
    no_when : Whens
    next_when : When → Whens → Whens

pub data ResponseType : Type 0 where
  cloud_event assume_structured_cloud_event raw : ResponseType

-- A call of an external endpoint.
pub record ValidateSpec (Endpoint Request : Type 0) : Type 0 where
  pub endpoint : Endpoint
  pub request : Request

pub record EnrichSpec (Endpoint Request : Type 0) : Type 0 where
  pub endpoint : Endpoint
  pub request : Request
  pub response : ResponseType

pub data Step (Endpoint Request : Type 0) : Type 0 where
  drop break : Step Endpoint Request
  reject : String → Step Endpoint Request
  set_attribute set_extension : String → String → Step Endpoint Request
  remove_attribute remove_extension : String → Step Endpoint Request
  validate : ValidateSpec Endpoint Request → Step Endpoint Request
  enrich : EnrichSpec Endpoint Request → Step Endpoint Request

pub record Rule (Endpoint Request : Type 0) : Type 0 where
  pub when : When
  pub then_steps : List (Step Endpoint Request)

-- Rust's `ends_with`
abbrev pub ends_with : String → String → Bool
ends_with s t = leb (len t) (len s) && is_text t (get? s (len s - len t) (len s))
  where
    is_text : String → Option String → Bool
    is_text t none = false
    is_text t (some u) = u == t

-- `is_json` of sender/mod.rs
unfoldable pub is_json : String → Bool
is_json content_type =
    starts_with content_type "application/json"
    || starts_with content_type "text/json"
    || ends_with content_type "+json"

-- `is_when`, by the subject of the event
unfoldable mutual
  pub is_when : When → Option String → Bool
  is_when always subject = true
  is_when (not_when when) subject = not (is_when when subject)
  is_when (and_when no_when) subject = false
  is_when (and_when (next_when when whens)) subject = all_when (next_when when whens) subject
  is_when (or_when whens) subject = any_when whens subject
  is_when (is_channel channel) none = false
  is_when (is_channel channel) (some subject) = channel == subject

  pub all_when : Whens → Option String → Bool
  all_when no_when subject = true
  all_when (next_when when whens) subject = is_when when subject && all_when whens subject

  pub any_when : Whens → Option String → Bool
  any_when no_when subject = false
  any_when (next_when when whens) subject = is_when when subject || any_when whens subject
