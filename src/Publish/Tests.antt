-- ===== src/Publish/Tests.antt =====
-- The publishing of a message at concrete rules; the world counts the calls of endpoints.
use mathlib.Core.List.{foldl}
use drogue_cloud.Base.{
  arith, ℕ, suc, String, ◌≡◌, ◌⊎◌, refl, List, [], ◌∷◌, Option, none, some, Result, ok, err,
  string_eq,
}
use drogue_cloud.Publish.{
  not_when, and_when, is_channel, no_when, next_when, break, drop, set_attribute, set_extension,
  validate, Rule,
}
use drogue_cloud.Publish.Processor.{CloudEvents, Response, Externals, process}
use drogue_cloud.Publish.Sequence.{going, by_rule, result_of, process-foldl}
use drogue_cloud.Publish.Identity.{Untouched, process-part}
use drogue_cloud.Publish.Sender.{
  downstream, PublishOutcome, PublishError, Sections, Builder, Send, sent, publish,
}
use drogue_cloud.Publish.Sending.{publish-part}

record TestEvent : Type 0 where
  source : String
  subject : Option String
  extensions : List (String × String)

abbrev events : CloudEvents TestEvent String String
events = record {
  subject = λ e. e.subject;
  set_subject = λ value e. record e { subject = value };
  set_type = λ value e. e;
  set_datacontenttype = λ value e. e;
  set_dataschema = λ value e. e;
  set_event_extension = λ name value e. record e { extensions = (name, value) ∷ e.extensions };
  remove_event_extension = λ name e. record e { extensions = [] };
  set_data = λ type body e. e;
  parse_url = λ text. some text;
}

abbrev untouched : Untouched events String
untouched = record {
  part = λ e. e.source;
  of_subject = λ value e. refl;
  of_type = λ value e. refl;
  of_datacontenttype = λ value e. refl;
  of_dataschema = λ value e. refl;
  of_extension = λ name value e. refl;
  of_removal = λ name e. refl;
  of_data = λ type body e. refl;
}

abbrev fine : Response TestEvent String String
fine = record {
  status = 200;
  content_type = none;
  text = ok "";
  json_reason = ok none;
  json_event = err "no event";
  decoded_event = err "no event";
  bytes = ok "";
}

abbrev externals : Externals TestEvent String String String (Unit {0}) (Unit {0}) TestEvent ℕ
externals = record {
  get_client = λ endpoint w. (ok tt, w);
  to_payload = λ request e. e;
  send = λ client payload endpoint w. (ok fine, suc w);
}

abbrev door : TestEvent
door = record { source = "shop/door"; subject = some "state"; extensions = [] }

-- Events of the channel are renamed and marked.
abbrev renaming : Rule String (Unit {0})
renaming = record {
  when = and_when (next_when (is_channel "state") (next_when (not_when (is_channel "x")) no_when));
  then_steps = set_attribute "subject" "open" ∷ set_extension "a" "b" ∷ [];
}

abbrev breaking : Rule String (Unit {0})
breaking = record {
  when = is_channel "open";
  then_steps = validate (record { endpoint = "e"; request = tt }) ∷ break ∷ drop ∷ [];
}

process-foldl_example :
    process events externals (renaming ∷ breaking ∷ []) door 0
    ≡ result_of events externals
        (foldl (by_rule events externals) (going door 0) (renaming ∷ breaking ∷ []))
process-foldl_example = process-foldl events externals (renaming ∷ breaking ∷ []) door 0

process-part_example :
    (record door { subject = some "open"; extensions = ("a", "b") ∷ [] }).source ≡ door.source
unfolding process
process-part_example =
    process-part events externals untouched (renaming ∷ breaking ∷ []) door
      (record door { subject = some "open"; extensions = ("a", "b") ∷ [] }) 0
      ((refl, (refl, tt)), ((refl, (refl, (refl, tt))), tt)) refl

abbrev sections : Sections (Unit {0}) String String (Unit {0})
sections = record {
  command_rules = λ app. none;
  publish_rules = λ app. some (ok (renaming ∷ breaking ∷ []));
}

abbrev builder : Builder String String String TestEvent String
builder = record {
  parse_json = λ body. some body;
  build = λ message type content.
      ok (record { source = "shop/door"; subject = some message; extensions = [] });
}

publish-part_example :
    ((answer : Result (PublishError String) PublishOutcome × ℕ) × ((send : Send events externals
          sections builder)
        → publish events externals sections builder send downstream tt "state" none "1" 0 ≡ answer))
    ⊎ ((e : TestEvent) × (after : ℕ) × (e.source ≡ "shop/door")
        × ((send : Send events externals sections builder)
            → publish events externals sections builder send downstream tt "state" none "1" 0
              ≡ sent events externals sections builder (send tt e after)))
unfolding publish
publish-part_example =
    publish-part events externals sections builder untouched downstream tt "state" none "1" 0
      (renaming ∷ breaking ∷ []) "shop/door" refl
      ((refl, (refl, tt)), ((refl, (refl, (refl, tt))), tt)) (λ type content e h. ground (arith, h))
