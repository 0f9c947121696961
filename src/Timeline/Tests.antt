-- ===== src/Timeline/Tests.antt =====
-- The timeline at concrete inputs; a sum of codes stands for the digest.
use opa_security_awareness_a.Common.{ℕ, ◌+◌, ◌≡◌, refl, none, some, List, [], ◌∷◌, ◌≢◌}
use opa_security_awareness_a.Common.Text.{Text, codes, text_eq, decimal}
use opa_security_awareness_a.Timeline.Json.{
  Json, string, object, array, nil, item, end, member, canonicalise,
}
use opa_security_awareness_a.Timeline.Chain.{
  Event, Params, get_timeline, record_event, verify_chain, verify_structural_chain,
  verify_tail_event, valid,
}
use opa_security_awareness_a.Timeline.Canonical.{
  in_array, in_object, each, no_item, swap, canonicalise-Reordered,
}
use opa_security_awareness_a.Timeline.Append.{record_event_checks}

abbrev sum : Text → ℕ
sum [] = 0
sum (c ∷ cs) = c + sum cs

abbrev checksum : Text → Text
checksum t = decimal (sum t)

abbrev closing : Params
closing = record {
  incident_id = codes "i1";
  type = codes "INCIDENT_CLOSED";
  payload = some (object (member (codes "reason") (string (codes "X")) end));
  source = codes "api";
  actor_user_id = none;
  correlation_id = none;
  occurred_at = none;
}

abbrev stored : List Event
stored =
    record {
      incident_id = codes "i1";
      sequence = 1;
      type = codes "INCIDENT_CREATED";
      payload = none;
      source = codes "api";
      actor_user_id = none;
      correlation_id = none;
      occurred_at = codes "2026-01-01T00:00:00.000Z";
      previous_hash = none;
      hash = codes "legacy";
    }
    ∷ []

record_event_checks_example :
    let after = record_event checksum closing (codes "2026-01-02T00:00:00.000Z") stored in
    (verify_chain checksum (codes "i1") after ≡ verify_chain checksum (codes "i1") stored)
    × (verify_structural_chain (codes "i1") after ≡ verify_structural_chain (codes "i1") stored)
    × (verify_tail_event checksum (codes "i1") after ≡ valid)
    × (get_timeline (codes "i2") after ≡ get_timeline (codes "i2") stored)
unfolding text_eq
record_event_checks_example =
    record_event_checks checksum closing (codes "2026-01-02T00:00:00.000Z") (codes "i2") stored refl

-- The payload of one event as it is written, and as the database gives it back.
abbrev written : Json
written = object (
    member (codes "previousStatus") (string (codes "OPEN"))
      (member (codes "reason") (string (codes "X")) end))

abbrev given_back : Json
given_back = object (
    member (codes "reason") (string (codes "X"))
      (member (codes "previousStatus") (string (codes "OPEN")) end))

differ : codes "previousStatus" ≢ codes "reason"
differ h = cc

canonicalise-Reordered_example :
    canonicalise (array (item written nil)) ≡ canonicalise (array (item given_back nil))
canonicalise-Reordered_example =
    canonicalise-Reordered (array (item written nil)) (array (item given_back nil)) (
      in_array
        (each (in_object (swap (string (codes "OPEN")) (string (codes "X")) end differ)) no_item))
