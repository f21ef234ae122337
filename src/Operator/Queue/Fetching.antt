-- ===== src/Operator/Queue/Fetching.antt =====
-- operator-common/src/controller/base/queue.rs: the entry that is fetched is the first that is due.
use drogue_cloud.Base.{
  ℕ, suc, ◌≤◌, ◌<◌, zero, ltb, leb, String, ◌≡◌, refl, ◌∙◌, [], ◌∷◌, Option, none, some, arith,
  Option-cases, Bool-cases, inl, inr, nat_eq, string_eq, ◌==◌, beq_refl, string_beq_iff, length,
}
use drogue_cloud.HashMap.{get, remove, get-remove}
use drogue_cloud.HashMap.Unique.{IsUnique, remove-IsUnique}
use drogue_cloud.HashMap.Size.{length-remove-lt}
use drogue_cloud.Operator.Queue.{Key, QueueRow, Queue, QueueEntry, do_ack, first_due, fetch}

-- A row that is due comes no earlier than the first.
first_due-get :
    (now : ℕ) (queue : Queue) (key : String) (row : QueueRow)
    → get key queue ≡ some row
    → row.ts < now
    → (text : String) × (first : QueueRow) × (first_due now queue ≡ some (text, first))
      × (first.ts ≤ row.ts)
unfolding first_due get
first_due-get now [] key row is due = absurd (ground (arith, is))
first_due-get now ((k, r) ∷ queue) key row is due = elim (Bool-cases (k == key)) [
  | inl hit ↦
      let same : r ≡ row = ground (arith, is, hit) in
      elim (Option-cases (first_due now queue)) [
        | inl e ↦ (k, r, ground (arith, e, same, due), ground (arith, same))
        | inr ((text, other), e) ↦ elim (Bool-cases (leb r.ts other.ts)) [
          | inl early ↦ (k, r, ground (arith, e, same, due, early), ground (arith, same))
          | inr late ↦ (text, other, ground (arith, e, same, due, late), ground (arith, same, late))
        ]
      ]
  | inr miss ↦
      let (text, first, e, least) =
        first_due-get now queue key row (ground (arith, is, miss)) due in
      elim (Bool-cases (ltb r.ts now)) [
        | inr late ↦ (text, first, ground (arith, e, late), least)
        | inl now_due ↦ elim (Bool-cases (leb r.ts first.ts)) [
          | inl early ↦ (k, r, ground (arith, e, now_due, early), ground (arith, early, least))
          | inr behind ↦ (text, first, ground (arith, e, now_due, behind), least)
        ]
      ]
]

first_due_lt :
    (now : ℕ) (queue : Queue) (text : String) (row : QueueRow)
    → first_due now queue ≡ some (text, row)
    → row.ts < now
unfolding first_due
first_due_lt now [] text row h = absurd (ground (arith, h))
first_due_lt now ((k, r) ∷ queue) text row h = elim (Option-cases (first_due now queue)) [
  | inl e ↦ ground (arith, h, e)
  | inr ((t, other), e) ↦ ground (arith, h, e, first_due_lt now queue t other e)
]

-- The first row is one of the queue, if no key has two rows.
first_due-mem :
    (now : ℕ) (queue : Queue) (text : String) (row : QueueRow)
    → first_due now queue ≡ some (text, row)
    → IsUnique queue
    → get text queue ≡ some row
unfolding first_due get
first_due-mem now [] text row h unique = absurd (ground (arith, h))
first_due-mem now ((k, r) ∷ queue) text row h unique = elim (Option-cases (first_due now queue)) [
  | inl e ↦ ground (arith, h, e, string_beq_iff k text)
  | inr ((t, other), e) ↦
      ground
        (arith, h, e, unique.0, first_due-mem now queue t other e unique.1, string_beq_iff k text)
]

first_due-none :
    (now : ℕ) (queue : Queue) (text : String) (row : QueueRow)
    → first_due now queue ≡ none
    → get text queue ≡ some row
    → now ≤ row.ts
first_due-none now queue text row e is = elim (Bool-cases (ltb row.ts now)) [
  | inr late ↦ ground (arith, late)
  | inl due ↦
      let (other, first, found_first, least) =
        first_due-get now queue text row is (ground (arith, due)) in
      absurd (ground (arith, e, found_first))
]

first_due-least :
    (now : ℕ) (queue : Queue) (text other : String) (first row : QueueRow)
    → first_due now queue ≡ some (text, first)
    → get other queue ≡ some row
    → first.ts ≤ row.ts
first_due-least now queue text other first row e is = elim (Bool-cases (ltb row.ts now)) [
  | inr late ↦ let due = first_due_lt now queue text first e in ground (arith, late, due)
  | inl due ↦
      let (t, f, found_first, least) = first_due-get now queue other row is (ground (arith, due)) in
      ground (arith, e, found_first, least)
]

-- What `do_ack` does with the row that was read.
do_ack-remove :
    (text : String) (row : QueueRow) (queue : Queue)
    → get text queue ≡ some row
    → do_ack text row.ts row.rev queue ≡ remove text queue
unfolding do_ack
do_ack-remove text row queue is = ground (arith, is, beq_refl row.rev)

module _ {K : Type 0} (keys : Key K) where
  -- The answer of a fetch: an entry whose row is due and comes first among those whose key can be
  -- read, or none if there is no such row.
  abbrev pub IsFirst : ℕ → Queue → Option (QueueEntry K) → Type 0
  IsFirst now queue none =
      (text : String) (key : K) (row : QueueRow)
      → keys.from_string text ≡ some key
      → get text queue ≡ some row
      → now ≤ row.ts
  IsFirst now queue (some entry) =
      (get (keys.to_string entry.key) queue
        ≡ some (record { ts = entry.timestamp; rev = entry.rev }))
      × (entry.timestamp < now)
      × ((text : String) (key : K) (row : QueueRow)
          → keys.from_string text ≡ some key
          → get text queue ≡ some row
          → entry.timestamp ≤ row.ts)

  -- The rows whose keys can be read stay as they are.
  abbrev pub KeepsReadable : Queue → Queue → Type 0
  KeepsReadable before after =
      (text : String) (key : K)
      → keys.from_string text ≡ some key
      → get text after ≡ get text before

  other_row :
      (text other : String) (key : K) (queue : Queue)
      → keys.from_string text ≡ none
      → keys.from_string other ≡ some key
      → get other (remove text queue) ≡ get other queue
  other_row text other key queue unreadable reads = elim (Bool-cases (text == other)) [
    | inl hit ↦ absurd (ground (arith, unreadable, reads, (string_beq_iff text other).0 hit))
    | inr miss ↦ ground (arith, miss, get-remove text other queue)
  ]

  remove-IsFirst :
      (now : ℕ) (text : String) (queue : Queue) (answer : Option (QueueEntry K))
      → keys.from_string text ≡ none
      → IsFirst now (remove text queue) answer
      → IsFirst now queue answer
  remove-IsFirst now text queue none unreadable first = λ other key row reads is.
      first other key row reads (other_row text other key queue unreadable reads ∙ is)
  remove-IsFirst now text queue (some entry) unreadable (there, due, least) = (
    ground (arith, there, get-remove text (keys.to_string entry.key) queue),
    due,
    λ other key row reads is.
        least other key row reads (other_row text other key queue unreadable reads ∙ is),
  )

  -- With fuel for one more round than there are rows, each of a key of its own, a fetch ends. Its
  -- answer is the first row that is due among those whose keys can be read, if there is one, and
  -- these rows all stay.
  pub fetch_total :
      (fuel now : ℕ) (queue : Queue)
      → IsUnique queue
      → length queue < fuel
      → (answer : Option (QueueEntry K)) × (rest : Queue) × (fetch keys fuel now queue
          ≡ some (answer, rest))
        × IsFirst now queue answer
        × KeepsReadable queue rest
  unfolding fetch
  fetch_total zero now queue unique enough = absurd (ground (arith, enough))
  fetch_total (suc fuel) now queue unique enough = elim (Option-cases (first_due now queue)) [
    | inl e ↦ (
      none,
      queue,
      ground (arith, e),
      (λ text key row readable is. first_due-none now queue text row e is),
      λ text key readable. refl,
    )
    | inr ((text, row), e) ↦ elim (Option-cases (keys.from_string text)) [
      | inr (key, readable) ↦ (
        some (record { key = key; timestamp = row.ts; rev = row.rev }),
        queue,
        ground (arith, e, readable),
        (
          rw (keys.to_string-from_string text key readable)
              (first_due-mem now queue text row e unique),
          first_due_lt now queue text row e,
          λ other k r reads is. first_due-least now queue text other row r e is,
        ),
        λ text key readable. refl,
      )
      | inl unreadable ↦
          let is = first_due-mem now queue text row e unique in
          let fewer = length-remove-lt text queue row is in
          let (answer, rest, ends, first, keeps) =
            fetch_total fuel now (remove text queue) (remove-IsUnique text queue unique)
              (omega (arith, fewer, enough)) in
          (
            answer,
            rest,
            ground (arith, e, unreadable, do_ack-remove text row queue is, ends),
            remove-IsFirst now text queue answer unreadable first,
            λ other key reads.
                keeps other key reads ∙ other_row text other key queue unreadable reads,
          )
    ]
  ]
