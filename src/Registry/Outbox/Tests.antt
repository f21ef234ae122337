-- ===== src/Registry/Outbox/Tests.antt =====
-- The outbox at a concrete sequence of events.
use drogue_cloud.Base.{ℕ, ◌≡◌, ◌≤◌, ◌<◌, refl, List, [], ◌∷◌, some, arith}
use mathlib.Core.List.{Memᴰ}
use drogue_cloud.Registry.Outbox.{
  OutboxEntry, OutboxRow, key_of, create, fetch_unread, entry_from_row,
}
use drogue_cloud.Registry.Outbox.Pending.{Happening, creates, sees, run}
use drogue_cloud.Registry.Outbox.Fetching.{fetch_unread-create}

abbrev entry : ℕ → OutboxEntry
entry revision = record {
  instance_id = "i";
  app = "shop";
  device = some "door";
  path = ".spec";
  revision = revision;
  uid = 5;
}

-- Events that are older are seen, and a later one of the same path is created.
abbrev history : List Happening
history = sees (entry 3) ∷ creates 30 (entry 5) ∷ sees (entry 3) ∷ []

fetch_unread-create_example :
    (row : OutboxRow) × (row.uid ≡ 5)
    × (4 ≤ row.revision)
    × ((beginning : ℕ)
        → row.ts < beginning
        → Memᴰ
            (row.ts, entry_from_row (key_of (entry 4)) row)
            (fetch_unread beginning (run history (create 20 (entry 4) []))))
fetch_unread-create_example =
    fetch_unread-create 20 (entry 4) history []
      (λ same. omega arith, (λ same. refl, (λ same. omega arith, tt)))
