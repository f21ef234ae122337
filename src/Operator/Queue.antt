-- ===== src/Operator/Queue.antt =====
-- operator-common/src/controller/base/queue.rs: the keys that wait to be processed, in a table of the
-- database. The queue has the rows of one instance and type; times are numbers, and the database is
-- taken to answer.
pub mod Fetching
pub mod Acknowledging
pub mod Keys
pub mod Tests
use drogue_cloud.Base.{
  ℕ, zero, suc, ◌+◌, ltb, leb, String, ◌≡◌, Bool, ◌&&◌, ◌||◌, List, [], ◌∷◌, Option, none, some,
  Result, ok, err, nat_eq, string_eq, ◌==◌, if◌then◌else◌,
}
use drogue_cloud.HashMap.{HashMap, get, insert, remove}

-- The trait `Key`; a text that can be read is the one that is written.
pub record Key (K : Type 0) : Type 0 where
  pub to_string : K → String
  pub from_string : String → Option K
  pub to_string-from_string :
      (text : String) (key : K) → from_string text ≡ some key → to_string key ≡ text

pub record QueueRow : Type 0 where
  pub ts : ℕ
  pub rev : ℕ

abbrev pub Queue : Type 0
Queue = HashMap String QueueRow

pub record QueueEntry (K : Type 0) : Type 0 where
  pub key : K
  pub timestamp : ℕ
  pub rev : ℕ

-- `INSERT … ON CONFLICT (INSTANCE, TYPE, KEY) DO UPDATE SET TS = EXCLUDED.TS, REV = WORKQUEUE.REV + 1
-- WHERE WORKQUEUE.TS > EXCLUDED.TS OR WORKQUEUE.TS < now()`
unfoldable pub insert_row : ℕ → ℕ → String → Queue → Queue
insert_row now ts key queue = elim (get key queue) [
  | none ↦ insert key (record { ts = ts; rev = 0 }) queue
  | some row ↦
      if ltb ts row.ts || ltb row.ts now
      then insert key (record { ts = ts; rev = row.rev + 1 }) queue
      else queue
]

-- `DELETE … WHERE … KEY = $3 AND TS <= $4 AND REV = $5`
unfoldable pub do_ack : String → ℕ → ℕ → Queue → Queue
do_ack key ts rev queue = elim (get key queue) [
  | none ↦ queue
  | some row ↦ if leb row.ts ts && row.rev == rev then remove key queue else queue
]

-- `WHERE TS < now() ORDER BY TS ASC LIMIT 1`
unfoldable pub first_due : ℕ → Queue → Option (String × QueueRow)
first_due now [] = none
first_due now ((key, row) ∷ queue) =
    let rest = first_due now queue in
    if ltb row.ts now
    then (elim rest [
      | none ↦ some (key, row)
      | some other ↦ if leb row.ts other.1.ts then some (key, row) else some other
    ])
    else rest

module _ {K : Type 0} (keys : Key K) where
  -- `WorkQueueWriter::add`; the two clocks are read one after the other.
  unfoldable pub add : ℕ → ℕ → K → ℕ → Queue → Queue
  unfolding insert_row
  add now later key after queue = insert_row later (now + after) (keys.to_string key) queue

  -- An entry whose key cannot be read is acknowledged, and the next one is fetched. Without fuel
  -- the answer is `none`.
  unfoldable pub fetch : ℕ → ℕ → Queue → Option (Option (QueueEntry K) × Queue)
  unfolding first_due do_ack
  fetch zero now queue = none
  fetch (suc fuel) now queue = elim (first_due now queue) [
    | none ↦ some (none, queue)
    | some (text, row) ↦ elim (keys.from_string text) [
      | some key ↦ some (some (record { key = key; timestamp = row.ts; rev = row.rev }), queue)
      | none ↦ fetch fuel now (do_ack text row.ts row.rev queue)
    ]
  ]

  unfoldable pub ack : QueueEntry K → Queue → Queue
  unfolding do_ack
  ack entry queue = do_ack (keys.to_string entry.key) entry.timestamp entry.rev queue

  -- What the worker does when the handler has answered for an entry: a key to process again is
  -- added before the entry is acknowledged; after a failure the entry stays.
  unfoldable pub finish_entry :
      ℕ → ℕ → QueueEntry K → Result (Unit {0}) (Option (K × ℕ)) → Queue → Queue
  unfolding add ack
  finish_entry now later entry (err _) queue = queue
  finish_entry now later entry (ok none) queue = ack entry queue
  finish_entry now later entry (ok (some (key, after))) queue =
      ack entry (add now later key after queue)
