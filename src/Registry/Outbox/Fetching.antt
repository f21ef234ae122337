-- ===== src/Registry/Outbox/Fetching.antt =====
-- database-common/src/models/outbox.rs: what is pending gets fetched.
use drogue_cloud.Base.{
  ℕ, ◌≤◌, ◌<◌, ◌≡◌, refl, true, List, [], ◌∷◌, some, arith, Bool-cases, inl, inr, ltb, leb, nat_eq,
  ◌==◌,
}
use mathlib.Core.List.{Memᴰ}
use mathlib.Core.List.Memᴰ
use drogue_cloud.HashMap.{get}
use drogue_cloud.Registry.Outbox.{
  OutboxKey, OutboxEntry, OutboxRow, Outbox, outbox_key_eq, outbox_key_beq_iff, key_of, create,
  insert_by_ts, fetch_unread, entry_from_row,
}
use drogue_cloud.Registry.Outbox.Pending.{Happening, run, AllUnseen, run-create-IsPending}

mem-insert_by_ts :
    (ts : ℕ) (entry : OutboxEntry) (entries : List (ℕ × OutboxEntry))
    → Memᴰ (ts, entry) (insert_by_ts ts entry entries)
unfolding insert_by_ts
mem-insert_by_ts ts entry [] = Memᴰ.head refl
mem-insert_by_ts ts entry ((other, e) ∷ entries) = elim (Bool-cases (leb ts other)) [
  | inl early ↦ rw early (Memᴰ.head refl)
  | inr late ↦ rw late (Memᴰ.tail (mem-insert_by_ts ts entry entries))
]

mem-insert_by_ts_other :
    (x : ℕ × OutboxEntry) (ts : ℕ) (entry : OutboxEntry) (entries : List (ℕ × OutboxEntry))
    → Memᴰ x entries
    → Memᴰ x (insert_by_ts ts entry entries)
unfolding insert_by_ts
mem-insert_by_ts_other x ts entry [] there = absurd (Memᴰ.not-nil there)
mem-insert_by_ts_other x ts entry ((other, e) ∷ entries) there = elim (Bool-cases (leb ts other)) [
  | inl early ↦ rw early (Memᴰ.tail there)
  | inr late ↦ elim (Memᴰ.cases_cons there) [
    | inl same ↦ rw late (Memᴰ.head same)
    | inr behind ↦ rw late (Memᴰ.tail (mem-insert_by_ts_other x ts entry entries behind))
  ]
]

fetch_unread-mem :
    (beginning : ℕ) (outbox : Outbox) (key : OutboxKey) (row : OutboxRow)
    → get key outbox ≡ some row
    → row.ts < beginning
    → Memᴰ (row.ts, entry_from_row key row) (fetch_unread beginning outbox)
unfolding fetch_unread get
fetch_unread-mem beginning [] key row is old = cc
fetch_unread-mem beginning ((k, r) ∷ outbox) key row is old = elim (Bool-cases (k == key)) [
  | inl hit ↦
      let keys = (outbox_key_beq_iff k key).0 hit in
      let rows : r ≡ row = ground (arith, is, hit) in
      let early : ltb r.ts beginning ≡ true = ground (arith, rows, old) in
      rw (early, keys, rows)
        (mem-insert_by_ts row.ts (entry_from_row key row) (fetch_unread beginning outbox))
  | inr miss ↦
      let behind = fetch_unread-mem beginning outbox key row (ground (arith, is, miss)) old in
      elim (Bool-cases (ltb r.ts beginning)) [
        | inl early ↦ rw early (
            mem-insert_by_ts_other (row.ts, entry_from_row key row) r.ts (entry_from_row k r)
              (fetch_unread beginning outbox) behind)
        | inr late ↦ rw late behind
      ]
]

-- An event that got into the outbox is fetched once it is old enough, or a later one of the same
-- resource and path is, whatever is created and seen in between: unless one with its revision or
-- a later one was seen, or another resource took its path.
pub fetch_unread-create :
    (now : ℕ) (entry : OutboxEntry) (hs : List Happening) (outbox : Outbox)
    → AllUnseen entry hs
    → (row : OutboxRow) × (row.uid ≡ entry.uid)
      × (entry.revision ≤ row.revision)
      × ((beginning : ℕ)
          → row.ts < beginning
          → Memᴰ
              (row.ts, entry_from_row (key_of entry) row)
              (fetch_unread beginning (run hs (create now entry outbox))))
fetch_unread-create now entry hs outbox unseen =
    let (row, is, uid, later) = run-create-IsPending now entry hs outbox unseen in
    (
      row,
      uid,
      later,
      λ beginning old.
          fetch_unread-mem beginning (run hs (create now entry outbox)) (key_of entry) row is old,
    )
