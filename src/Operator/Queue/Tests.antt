-- ===== src/Operator/Queue/Tests.antt =====
-- The work queue at concrete rows, one of which has a text that is no key.
use drogue_cloud.Base.{String, ◌≡◌, refl, [], ◌∷◌, Option, some, arith, string_eq}
use drogue_cloud.HashMap.{get}
use drogue_cloud.Operator.Queue.{Queue, QueueEntry, fetch, ack}
use drogue_cloud.Operator.Queue.Keys.{pair_key}
use drogue_cloud.Operator.Queue.Fetching.{IsFirst, KeepsReadable, fetch_total}
use drogue_cloud.Operator.Queue.Acknowledging.{Addition, add_all, ack-add_all}

abbrev rows : Queue
rows =
    ("shop/late", record { ts = 9; rev = 0 })
    ∷ ("bad", record { ts = 1; rev = 4 })
    ∷ ("shop/door", record { ts = 3; rev = 2 })
    ∷ []

abbrev entry : QueueEntry (String × String)
entry = record { key = ("shop", "door"); timestamp = 3; rev = 2 }

abbrev addition : Addition
addition = record { now = 7; later = 8; after = 5 }

fetch_total_example :
    (answer : Option (QueueEntry (String × String))) × (rest : Queue) × (fetch pair_key 4 10 rows
      ≡ some (answer, rest))
    × IsFirst pair_key 10 rows answer
    × KeepsReadable pair_key rows rest
unfolding get
fetch_total_example = fetch_total pair_key 4 10 rows (refl, (refl, (refl, tt))) (omega arith)

ack-add_all_example :
    ack pair_key entry (add_all pair_key ("shop", "door") (addition ∷ addition ∷ []) rows)
    ≡ add_all pair_key ("shop", "door") (addition ∷ addition ∷ []) rows
unfolding get
ack-add_all_example = ack-add_all pair_key entry addition (addition ∷ []) rows refl (omega arith)
