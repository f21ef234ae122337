-- ===== src/Operator/Queue/Acknowledging.antt =====
-- operator-common/src/controller/base/queue.rs: what an acknowledgement takes away.
use drogue_cloud.Base.{
  ℕ, ◌+◌, ◌≤◌, ◌<◌, ltb, String, ◌≡◌, List, [], ◌∷◌, ok, err, none, some, arith, Bool-cases, inl,
  inr, ◌||◌, nat_eq, string_eq, nat_beq_iff, beq_refl,
}
use drogue_cloud.HashMap.{get, get-insert, get-remove}
use drogue_cloud.Operator.Queue.{
  Key, QueueRow, Queue, QueueEntry, insert_row, do_ack, add, ack, finish_entry,
}

-- A call of `add` for a key: its two clocks and the delay.
pub record Addition : Type 0 where
  pub now : ℕ
  pub later : ℕ
  pub after : ℕ

-- The row that a key gets by an addition is due no later than asked for.
insert_row-get :
    (now ts : ℕ) (key : String) (queue : Queue) (row : QueueRow)
    → get key queue ≡ some row
    → (new : QueueRow) × (get key (insert_row now ts key queue) ≡ some new)
      × (new.ts ≤ ts)
      × (row.rev ≤ new.rev)
      × (row.ts < now → row.rev < new.rev)
unfolding insert_row
insert_row-get now ts key queue row is = elim (Bool-cases (ltb ts row.ts || ltb row.ts now)) [
  | inl moved ↦
      let new : QueueRow = record { ts = ts; rev = row.rev + 1 } in
      (
        new,
        ground (arith, is, moved, get-insert key key new queue, beq_refl key),
        omega arith,
        omega arith,
        λ old. omega arith,
      )
  | inr stays ↦ (
    row,
    ground (arith, is, stays),
    ground (arith, stays),
    omega arith,
    λ old. absurd (ground (arith, stays, old)),
  )
]

module _ {K : Type 0} (keys : Key K) where
  unfoldable pub add_all : K → List Addition → Queue → Queue
  unfolding add
  add_all key [] queue = queue
  add_all key (a ∷ additions) queue =
      add_all key additions (add keys a.now a.later key a.after queue)

  -- The revision grows no further than the rows do.
  add_all-get :
      (key : K) (additions : List Addition) (queue : Queue) (row : QueueRow)
      → get (keys.to_string key) queue ≡ some row
      → (new : QueueRow) × (get (keys.to_string key) (add_all key additions queue) ≡ some new)
        × (row.rev ≤ new.rev)
  unfolding add_all add
  add_all-get key [] queue row is = (row, is, omega arith)
  add_all-get key (a ∷ additions) queue row is =
      let (mid, mid_is, early, grows, strictly) =
        insert_row-get a.later (a.now + a.after) (keys.to_string key) queue row is in
      let (new, new_is, grown) =
        add_all-get key additions (add keys a.now a.later key a.after queue) mid mid_is in
      (new, new_is, omega arith)

  -- An entry was due when it was fetched. If its key is added while it is processed, and then
  -- perhaps added again, the acknowledgement of the entry takes nothing away.
  pub ack-add_all :
      (entry : QueueEntry K) (first : Addition) (more : List Addition) (queue : Queue)
      → get (keys.to_string entry.key) queue
        ≡ some (record { ts = entry.timestamp; rev = entry.rev })
      → entry.timestamp < first.later
      → ack keys entry (add_all entry.key (first ∷ more) queue)
        ≡ add_all entry.key (first ∷ more) queue
  unfolding ack do_ack add_all add
  ack-add_all entry first more queue is due =
      let (mid, mid_is, early, grows, strictly) =
        insert_row-get first.later (first.now + first.after) (keys.to_string entry.key) queue
          (record { ts = entry.timestamp; rev = entry.rev }) is in
      let (new, new_is, grown) =
        add_all-get entry.key more (add keys first.now first.later entry.key first.after queue) mid
          mid_is in
      let higher : entry.rev < new.rev = omega (arith, strictly due) in
      ground (arith, new_is, higher, nat_beq_iff new.rev entry.rev)

  -- When the handler of an entry has answered, and the key was not added in between: after a
  -- failure the row stays as it is, after a success it is gone, and when the key is to be processed
  -- again there is a row for it that is due no later than asked for.
  finish_entry-get :
      (now later : ℕ) (entry : QueueEntry K) (queue : Queue)
      → get (keys.to_string entry.key) queue
        ≡ some (record { ts = entry.timestamp; rev = entry.rev })
      → entry.timestamp < later
      → (get (keys.to_string entry.key) (finish_entry keys now later entry (err tt) queue)
          ≡ some (record { ts = entry.timestamp; rev = entry.rev }))
        × (get (keys.to_string entry.key) (finish_entry keys now later entry (ok none) queue)
            ≡ none)
        × ((after : ℕ)
            → (row : QueueRow) × (get
                  (keys.to_string entry.key)
                  (finish_entry keys now later entry (ok (some (entry.key, after))) queue)
                ≡ some row)
              × (row.ts ≤ now + after))
  unfolding finish_entry ack do_ack add
  finish_entry-get now later entry queue is due = (
    is,
    ground (
      arith,
      is,
      beq_refl entry.rev,
      get-remove (keys.to_string entry.key) (keys.to_string entry.key) queue,
      beq_refl (keys.to_string entry.key),
    ),
    λ after.
        let (row, row_is, early, grows, strictly) =
          insert_row-get later (now + after) (keys.to_string entry.key) queue
            (record { ts = entry.timestamp; rev = entry.rev }) is in
        let higher : entry.rev < row.rev = omega (arith, strictly due) in
        (row, ground (arith, row_is, higher, nat_beq_iff row.rev entry.rev), early),
  )
