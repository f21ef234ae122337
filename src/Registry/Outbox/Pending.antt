-- ===== src/Registry/Outbox/Pending.antt =====
-- database-common/src/models/outbox.rs: an event stays in the outbox until it, or a later one for the
-- same path, was seen.
use drogue_cloud.Base.{
  ℕ, ◌≤◌, ◌<◌, ◌≡◌, refl, not, List, [], ◌∷◌, some, arith, Option-cases, Bool-cases, inl, inr, ltb,
  ◌||◌, subst, sym, ◌∙◌, nat_eq, ◌==◌, beq_refl, nat_beq_iff,
}
use drogue_cloud.HashMap.{get, get-insert, get-remove}
use drogue_cloud.Registry.{Event}
use drogue_cloud.Registry.Outbox.{
  OutboxEntry, OutboxRow, Outbox, outbox_key_eq, outbox_key_beq_iff, key_of, create, mark_seen,
  notify, entry_from_event,
}

-- The row of a path carries the entry, or a later revision of the same resource.
abbrev pub IsPending : OutboxEntry → Outbox → Type 0
IsPending entry outbox =
    (row : OutboxRow) × (get (key_of entry) outbox ≡ some row)
    × (row.uid ≡ entry.uid)
    × (entry.revision ≤ row.revision)

pub create-IsPending :
    (now : ℕ) (entry : OutboxEntry) (outbox : Outbox) → IsPending entry (create now entry outbox)
unfolding create
create-IsPending now entry outbox = elim (Option-cases (get (key_of entry) outbox)) [
  | inl e ↦
      let row : OutboxRow = record {
        instance_id = entry.instance_id;
        revision = entry.revision;
        uid = entry.uid;
        ts = now;
      } in
      (
        row,
        ground (
          arith,
          e,
          get-insert (key_of entry) (key_of entry) row outbox,
          beq_refl (key_of entry),
        ),
        refl,
        omega arith,
      )
  | inr (old, e) ↦
      elim (Bool-cases (ltb old.revision entry.revision || not (old.uid == entry.uid))) [
        | inl newer ↦
            let row : OutboxRow = record old {
              revision = entry.revision;
              uid = entry.uid;
              ts = now;
            } in
            (
              row,
              ground (
                arith,
                e,
                newer,
                get-insert (key_of entry) (key_of entry) row outbox,
                beq_refl (key_of entry),
              ),
              refl,
              omega arith,
            )
        | inr older ↦ (
          old,
          ground (arith, e, older),
          ground (arith, older, nat_beq_iff old.uid entry.uid),
          ground (arith, older),
        )
      ]
]

-- Another entry, if it is of the same resource where it has the same path, does not take a pending one away.
pub create-IsPending_other :
    (now : ℕ) (entry other : OutboxEntry) (outbox : Outbox)
    → (key_of other ≡ key_of entry → other.uid ≡ entry.uid)
    → IsPending entry outbox
    → IsPending entry (create now other outbox)
unfolding create
create-IsPending_other now entry other outbox same (row, is, uid, later) =
    elim (Option-cases (get (key_of other) outbox)) [
      | inl e ↦
          let new : OutboxRow = record {
            instance_id = other.instance_id;
            revision = other.revision;
            uid = other.uid;
            ts = now;
          } in
          (
            row,
            ground (
              arith,
              e,
              is,
              get-insert (key_of other) (key_of entry) new outbox,
              outbox_key_beq_iff (key_of other) (key_of entry),
            ),
            uid,
            later,
          )
      | inr (old, e) ↦
          let new : OutboxRow = record old {
            revision = other.revision;
            uid = other.uid;
            ts = now;
          } in
          let law = get-insert (key_of other) (key_of entry) new outbox in
          elim (Bool-cases (key_of other == key_of entry)) [
            | inr miss ↦ (row, ground (arith, e, is, law, miss), uid, later)
            | inl hit ↦
                let keys = (outbox_key_beq_iff (key_of other) (key_of entry)).0 hit in
                let one : some old ≡ some row =
                  sym e ∙ (subst (λ k. get k outbox ≡ some row) (sym keys) is) in
                let same_uid : other.uid ≡ entry.uid = same keys in
                elim (Bool-cases (ltb old.revision other.revision || not (old.uid == other.uid))) [
                  | inl newer ↦ (
                    new,
                    ground (arith, e, law, hit, newer),
                    ground (arith, same_uid),
                    ground (arith, one, newer, later, uid, same_uid, nat_beq_iff old.uid other.uid),
                  )
                  | inr older ↦ (row, ground (arith, e, is, older), uid, later)
                ]
          ]
    ]

-- When events of one resource are notified, each of them is pending after.
abbrev pub AllOf : ℕ → List Event → Type 0
AllOf uid [] = Unit
AllOf uid (event ∷ events) = ((entry_from_event event).uid ≡ uid) × AllOf uid events

abbrev pub AllPending : List Event → Outbox → Type 0
AllPending [] outbox = Unit
AllPending (event ∷ events) outbox =
    IsPending (entry_from_event event) outbox × AllPending events outbox

notify_keeps :
    (now uid : ℕ) (events : List Event) (entry : OutboxEntry) (outbox : Outbox)
    → entry.uid ≡ uid
    → AllOf uid events
    → IsPending entry outbox
    → IsPending entry (notify now events outbox)
unfolding notify
notify_keeps now uid [] entry outbox e all pending = pending
notify_keeps now uid (event ∷ events) entry outbox e all pending =
    notify_keeps now uid events entry (create now (entry_from_event event) outbox) e all.1 (
      create-IsPending_other now entry (entry_from_event event) outbox (λ key. all.0 ∙ sym e)
        pending)

pub notify-AllPending :
    (now uid : ℕ) (events : List Event) (outbox : Outbox)
    → AllOf uid events
    → AllPending events (notify now events outbox)
unfolding notify
notify-AllPending now uid [] outbox all = tt
notify-AllPending now uid (event ∷ events) outbox all = (
  notify_keeps now uid events (entry_from_event event) (create now (entry_from_event event) outbox)
      all.0 all.1 (create-IsPending now (entry_from_event event) outbox),
  notify-AllPending now uid events (create now (entry_from_event event) outbox) all.1,
)

-- What happens to an outbox: an event is created, or one is seen.
pub data Happening : Type 0 where
  creates : ℕ → OutboxEntry → Happening
  sees : OutboxEntry → Happening

unfoldable pub happen : Happening → Outbox → Outbox
happen (creates now entry) outbox = create now entry outbox
happen (sees entry) outbox = (mark_seen entry outbox).1

unfoldable pub run : List Happening → Outbox → Outbox
unfolding happen
run [] outbox = outbox
run (h ∷ hs) outbox = run hs (happen h outbox)

-- The path is not taken over by another resource, and no later event of the path is seen.
abbrev pub Unseen : OutboxEntry → Happening → Type 0
Unseen entry (creates now other) = key_of other ≡ key_of entry → other.uid ≡ entry.uid
Unseen entry (sees other) = key_of other ≡ key_of entry → other.revision < entry.revision

abbrev pub AllUnseen : OutboxEntry → List Happening → Type 0
AllUnseen entry [] = Unit
AllUnseen entry (h ∷ hs) = Unseen entry h × AllUnseen entry hs

happen-IsPending :
    (entry : OutboxEntry) (h : Happening) (outbox : Outbox)
    → Unseen entry h
    → IsPending entry outbox
    → IsPending entry (happen h outbox)
unfolding happen mark_seen
happen-IsPending entry (creates now other) outbox unseen pending =
    create-IsPending_other now entry other outbox unseen pending
happen-IsPending entry (sees other) outbox unseen (row, is, uid, later) =
    elim (Bool-cases (key_of other == key_of entry)) [
      | inr miss ↦ (
        row,
        ground (arith, is, miss, get-remove (key_of other) (key_of entry) outbox),
        uid,
        later,
      )
      | inl hit ↦
          let keys = (outbox_key_beq_iff (key_of other) (key_of entry)).0 hit in
          let held : get (key_of other) outbox ≡ some row =
            subst (λ k. get k outbox ≡ some row) (sym keys) is in
          (row, ground (arith, is, held, later, unseen keys), uid, later)
    ]

-- An event that got into the outbox stays there, or is followed by a later one of the same resource
-- and path, through any creations and sightings, until one with its revision or a later one is
-- seen, or another resource takes its path.
pub run-create-IsPending :
    (now : ℕ) (entry : OutboxEntry) (hs : List Happening) (outbox : Outbox)
    → AllUnseen entry hs
    → IsPending entry (run hs (create now entry outbox))
unfolding run
run-create-IsPending now entry hs outbox unseen =
    keep hs (create now entry outbox) unseen (create-IsPending now entry outbox)
  where
    keep :
        (hs : List Happening) (box : Outbox)
        → AllUnseen entry hs
        → IsPending entry box
        → IsPending entry (run hs box)
    keep [] box unseen pending = pending
    keep (h ∷ hs) box unseen pending =
        keep hs (happen h box) unseen.1 (happen-IsPending entry h box unseen.0 pending)
