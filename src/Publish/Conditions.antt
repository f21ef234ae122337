-- ===== src/Publish/Conditions.antt =====
-- endpoint-common/src/sender/process/mod.rs: the conditions of rules in terms of each other.
use drogue_cloud.Base.{String, ◌≡◌, refl, not, Option, arith}
use drogue_cloud.Publish.{
  When, Whens, always, not_when, and_when, or_when, is_channel, no_when, next_when, is_when,
  all_when, any_when,
}

-- A condition without `And`: an empty `And` never holds, another is the negation of an `Or` of
-- negations.
unfoldable mutual
  pub without_and : When → When
  without_and always = always
  without_and (not_when when) = not_when (without_and when)
  without_and (and_when no_when) = not_when always
  without_and (and_when (next_when when whens)) =
      not_when (or_when (negations (next_when when whens)))
  without_and (or_when whens) = or_when (all_without_and whens)
  without_and (is_channel channel) = is_channel channel

  pub negations : Whens → Whens
  negations no_when = no_when
  negations (next_when when whens) = next_when (not_when (without_and when)) (negations whens)

  pub all_without_and : Whens → Whens
  all_without_and no_when = no_when
  all_without_and (next_when when whens) = next_when (without_and when) (all_without_and whens)

mutual
  unfolding is_when all_when any_when without_and negations all_without_and

  holds_without_and :
      (when : When) (subject : Option String)
      → is_when (without_and when) subject ≡ is_when when subject
  holds_without_and always subject = refl
  holds_without_and (not_when when) subject = rw (holds_without_and when subject) refl
  holds_without_and (and_when no_when) subject = refl
  holds_without_and (and_when (next_when when whens)) subject =
      any_when-negations (next_when when whens) subject
  holds_without_and (or_when whens) subject = any_when-all_without_and whens subject
  holds_without_and (is_channel channel) subject = refl

  any_when-negations :
      (whens : Whens) (subject : Option String)
      → not (any_when (negations whens) subject) ≡ all_when whens subject
  any_when-negations no_when subject = refl
  any_when-negations (next_when when whens) subject =
      ground (arith, holds_without_and when subject, any_when-negations whens subject)

  any_when-all_without_and :
      (whens : Whens) (subject : Option String)
      → any_when (all_without_and whens) subject ≡ any_when whens subject
  any_when-all_without_and no_when subject = refl
  any_when-all_without_and (next_when when whens) subject =
      ground (arith, holds_without_and when subject, any_when-all_without_and whens subject)

-- A condition holds for an event if and only if it does when each `And` in it is replaced: an empty
-- one by a condition that never holds, another by the negation of the `Or` of its negations.
is_when-without_and :
    (when : When) (subject : Option String)
    → is_when (without_and when) subject ≡ is_when when subject
is_when-without_and = holds_without_and
