-- ===== src/Registry/Outbox.antt =====
-- database-common/src/models/outbox.rs: the events that have yet to be seen by their receivers. The
-- table has one row for each path of a resource; the device of an application's event is "".
pub mod Pending
pub mod Fetching
pub mod Tests
use drogue_cloud.Base.{
  ℕ, String, ◌≡◌, ◌↔◌, Bool, true, false, not, ◌&&◌, ◌||◌, List, [], ◌∷◌, Option, none, some, arith,
  ltb, leb, PartialEq, nat_eq, string_eq, ◌==◌, string_beq_iff, if◌then◌else◌,
}
use drogue_cloud.HashMap.{HashMap, get, insert, remove}
use drogue_cloud.Registry.{Event, app_event, device_event}

pub record OutboxKey : Type 0 where
  pub app : String
  pub device : String
  pub path : String

abbrev pub outbox_key_beq : OutboxKey → OutboxKey → Bool
outbox_key_beq a b = a.app == b.app && a.device == b.device && a.path == b.path

pub outbox_key_beq_iff : (a b : OutboxKey) → (outbox_key_beq a b ≡ true) ↔ (a ≡ b)
outbox_key_beq_iff a b = ground (
  arith,
  string_beq_iff a.app b.app,
  string_beq_iff a.device b.device,
  string_beq_iff a.path b.path,
)

instance abbrev pub outbox_key_eq : PartialEq OutboxKey
outbox_key_eq = record { equals = outbox_key_beq; equals_iff = outbox_key_beq_iff }

pub record OutboxEntry : Type 0 where
  pub instance_id : String
  pub app : String
  pub device : Option String
  pub path : String
  pub revision : ℕ
  pub uid : ℕ

-- A row; the time stamp is that of the last change.
pub record OutboxRow : Type 0 where
  pub instance_id : String
  pub revision : ℕ
  pub uid : ℕ
  pub ts : ℕ

abbrev pub Outbox : Type 0
Outbox = HashMap OutboxKey OutboxRow

abbrev pub or_default : Option String → String
or_default none = ""
or_default (some text) = text

abbrev pub key_of : OutboxEntry → OutboxKey
key_of entry = record { app = entry.app; device = or_default entry.device; path = entry.path }

unfoldable pub entry_from_event : Event → OutboxEntry
entry_from_event (app_event instance_id app uid path revision) = record {
  instance_id = instance_id;
  app = app;
  device = none;
  path = path;
  revision = revision;
  uid = uid;
}
entry_from_event (device_event instance_id app device uid path revision) = record {
  instance_id = instance_id;
  app = app;
  device = some device;
  path = path;
  revision = revision;
  uid = uid;
}

unfoldable pub event_from_entry : OutboxEntry → Event
event_from_entry entry = elim entry.device [
  | some device ↦
      device_event entry.instance_id entry.app device entry.uid entry.path entry.revision
  | none ↦ app_event entry.instance_id entry.app entry.uid entry.path entry.revision
]

-- `INSERT … ON CONFLICT (APP, DEVICE, PATH) DO UPDATE … WHERE outbox.REVISION < EXCLUDED.REVISION OR
-- outbox.UID != EXCLUDED.UID`; the instance of a row that is there stays.
unfoldable pub create : ℕ → OutboxEntry → Outbox → Outbox
create now entry outbox = elim (get (key_of entry) outbox) [
  | none ↦
      insert (key_of entry)
        (record {
          instance_id = entry.instance_id;
          revision = entry.revision;
          uid = entry.uid;
          ts = now;
        })
        outbox
  | some row ↦
      if ltb row.revision entry.revision || not (row.uid == entry.uid)
      then insert (key_of entry)
          (record row { revision = entry.revision; uid = entry.uid; ts = now }) outbox
      else outbox
]

-- `DELETE … WHERE … REVISION <= $4 AND UID = $5`; whether a row was there to delete.
unfoldable pub mark_seen : OutboxEntry → Outbox → Bool × Outbox
mark_seen entry outbox = elim (get (key_of entry) outbox) [
  | none ↦ (false, outbox)
  | some row ↦
      if leb row.revision entry.revision && row.uid == entry.uid
      then (true, remove (key_of entry) outbox)
      else (false, outbox)
]

abbrev pub device_of : String → Option String
device_of text = if text == "" then none else some text

-- `TryFrom<Row>`
unfoldable pub entry_from_row : OutboxKey → OutboxRow → OutboxEntry
entry_from_row key row = record {
  instance_id = row.instance_id;
  app = key.app;
  device = device_of key.device;
  path = key.path;
  revision = row.revision;
  uid = row.uid;
}

-- `ORDER BY TS ASC`
unfoldable pub insert_by_ts : ℕ → OutboxEntry → List (ℕ × OutboxEntry) → List (ℕ × OutboxEntry)
insert_by_ts ts entry [] = (ts, entry) ∷ []
insert_by_ts ts entry ((other, e) ∷ entries) =
    let rest = insert_by_ts ts entry entries in
    if leb ts other then (ts, entry) ∷ (other, e) ∷ entries else (other, e) ∷ rest

unfoldable pub fetch_unread : ℕ → Outbox → List (ℕ × OutboxEntry)
unfolding insert_by_ts entry_from_row
fetch_unread beginning [] = []
fetch_unread beginning ((key, row) ∷ outbox) =
    let rest = fetch_unread beginning outbox in
    if ltb row.ts beginning then insert_by_ts row.ts (entry_from_row key row) rest else rest

-- `EventSender::notify` of an outbox
unfoldable pub notify : ℕ → List Event → Outbox → Outbox
unfolding create entry_from_event
notify now [] outbox = outbox
notify now (event ∷ events) outbox = notify now events (create now (entry_from_event event) outbox)
