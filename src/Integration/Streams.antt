-- ===== src/Integration/Streams.antt =====
-- mqtt-integration/src/service/session.rs: which streams run, after any calls.
use drogue_cloud.Base.{
  ℕ, String, ◌≡◌, refl, ◌∙◌, sym, ◌≢◌, true, false, [], ◌∷◌, none, some, arith, Option-cases,
  Bool-cases, inl, inr, string_eq, nat_eq, ◌==◌, beq_refl, beq_ne, string_beq_iff, nat_beq_iff,
}
use drogue_cloud.HashMap.{HashMap, get, insert, remove, get-insert, get-remove}
use drogue_cloud.Integration.{
  Stream, Services, Session, abort, attach_stream, detach, abort_all, drop,
}

module _ {A D Target : Type 0} (services : Services A D Target) where
  detach-none :
      (s : Session services) (topic : String)
      → get topic s.streams ≡ none
      → detach services s topic ≡ (false, s)
  unfolding detach
  detach-none s topic free = rw (detach, free) refl

  -- A topic that is subscribed twice has two streams, that both run. Unsubscribing it answers that a
  -- subscription existed, and ends the second only: the first runs on. Unsubscribing it again answers
  -- that none exists, and changes nothing.
  pub detach-attach_twice :
      (s : Session services) (first second : ℕ) (one two : Stream Target)
      → one.topic ≡ two.topic
      → first ≢ second
      → let s' = attach_stream services (attach_stream services s first one) second two in
        let r = detach services s' two.topic in
        (get first s'.running ≡ some one)
        × (get second s'.running ≡ some two)
        × (r.0 ≡ true)
        × (get first r.1.running ≡ some one)
        × (get second r.1.running ≡ none)
        × (detach services r.1 two.topic ≡ (false, r.1))
  unfolding attach_stream detach abort
  detach-attach_twice s first second one two same differ =
      let left : Session services = attach_stream services s first one in
      let streams = insert two.topic second left.streams in
      let at : get two.topic streams ≡ some second =
        get-insert two.topic two.topic second left.streams ∙ rw beq_refl refl in
      let gone : get two.topic (remove two.topic streams) ≡ none =
        get-remove two.topic two.topic streams ∙ rw beq_refl refl in
      let other : (second == first) ≡ false = beq_ne second first (λ e. differ (sym e)) in
      let running = insert second two left.running in
      let first_runs : get first running ≡ some one =
        get-insert second first two left.running
        ∙ rw other (get-insert first first one s.running ∙ rw beq_refl refl) in
      let after : Session services = record {
        client_id = s.client_id;
        streams = remove two.topic streams;
        running = remove second running;
      } in
      let is : detach services (attach_stream services left second two) two.topic ≡ (true, after) =
        rw (detach, at) refl in
      (
        first_runs,
        get-insert second second two left.running ∙ rw beq_refl refl,
        rw is refl,
        rw is (get-remove second first running ∙ rw other first_runs),
        rw is (get-remove second second running ∙ rw beq_refl refl),
        rw is (detach-none after two.topic gone),
      )

  -- The sessions in which no topic is attached while it has a stream. A task has a name of its own.
  pub data Reach : Session services → Type 0 where
    start :
        (client_id : String) → Reach (record { client_id = client_id; streams = []; running = [] })
    attached :
        {s : Session services} (task : ℕ) (stream : Stream Target)
        → Reach s
        → get stream.topic s.streams ≡ none
        → Reach (attach_stream services s task stream)
    detached : {s : Session services} (topic : String) → Reach s → Reach (detach services s topic).1

  -- Every task that runs has its handle in the session.
  abbrev IsTracked : Session services → Type 0
  IsTracked s =
      (task : ℕ) (stream : Stream Target)
      → get task s.running ≡ some stream
      → (topic : String) × (get topic s.streams ≡ some task)

  attach_stream-IsTracked :
      (s : Session services) (task : ℕ) (stream : Stream Target)
      → get stream.topic s.streams ≡ none
      → IsTracked s
      → IsTracked (attach_stream services s task stream)
  unfolding attach_stream
  attach_stream-IsTracked s task stream free h other runs at = elim (Bool-cases (task == other)) [
    | inl p ↦ (
      stream.topic,
      ground (
        arith,
        p,
        nat_beq_iff task other,
        get-insert stream.topic stream.topic task s.streams,
        beq_refl stream.topic,
      ),
    )
    | inr p ↦
        let (topic, here) =
          h other runs (ground (arith, p, at, get-insert task other stream s.running)) in
        (
          topic,
          ground (
            arith,
            here,
            free,
            get-insert stream.topic topic task s.streams,
            string_beq_iff stream.topic topic,
          ),
        )
  ]

  detach-IsTracked :
      (s : Session services) (topic : String) → IsTracked s → IsTracked (detach services s topic).1
  unfolding detach abort
  detach-IsTracked s topic h = elim (Option-cases (get topic s.streams)) [
    | inl e ↦ rw (detach, e) h
    | inr (task, e) ↦
        rw (detach, e, abort)
          (λ other runs at.
            let (there, here) =
              h other runs (ground (arith, at, get-remove task other s.running)) in
            (
              there,
              ground (
                arith,
                at,
                e,
                here,
                get-remove task other s.running,
                get-remove topic there s.streams,
                string_beq_iff topic there,
                nat_beq_iff task other,
              ),
            ))
  ]

  Reach-IsTracked : {s : Session services} → Reach s → IsTracked s
  unfolding get
  Reach-IsTracked (start client_id) = λ task stream at. absurd (ground (arith, at))
  Reach-IsTracked (attached {s = s} task stream before free) =
      attach_stream-IsTracked s task stream free (Reach-IsTracked before)
  Reach-IsTracked (detached {s = s} topic before) =
      detach-IsTracked s topic (Reach-IsTracked before)

  abort_all-none :
      (s : Session services) (task : ℕ) (entries : HashMap String ℕ)
      → get task s.running ≡ none
      → get task (abort_all services s entries).running ≡ none
  unfolding abort_all abort
  abort_all-none s task [] gone = gone
  abort_all-none s task (entry ∷ entries) gone =
      abort_all-none (abort services s entry.1) task entries
        (ground (arith, gone, get-remove entry.1 task s.running))

  abort_all-get :
      (s : Session services) (task : ℕ) (topic : String) (entries : HashMap String ℕ)
      → get topic entries ≡ some task
      → get task (abort_all services s entries).running ≡ none
  unfolding abort_all abort get
  abort_all-get s task topic [] h = absurd (ground (arith, h))
  abort_all-get s task topic (entry ∷ entries) h = elim (Bool-cases (entry.0 == topic)) [
    | inl p ↦
        abort_all-none (abort services s entry.1) task entries
          (ground (arith, p, h, get-remove entry.1 task s.running, beq_refl task))
    | inr p ↦ abort_all-get (abort services s entry.1) task topic entries (ground (arith, p, h))
  ]

  -- If no topic is subscribed again while it is subscribed, no stream runs once the session is gone.
  pub drop-Reach :
      (s : Session services) (task : ℕ) → Reach s → get task (drop services s).running ≡ none
  unfolding drop
  drop-Reach s task reach = elim (Option-cases (get task s.running)) [
    | inl gone ↦ abort_all-none (record s { streams = [] }) task s.streams gone
    | inr (stream, at) ↦
        let (topic, here) = Reach-IsTracked reach task stream at in
        abort_all-get (record s { streams = [] }) task topic s.streams here
  ]
