-- ===== src/Timeline/Chain.antt =====
-- recordEvent, getTimeline, computeHash and the three checks of incident-timeline.service.ts. `hex`
-- is the SHA-256 digest of a text in hexadecimal; an instant is the text of its toISOString.
use opa_security_awareness_a.Common.{
  ℕ, ◌+◌, Bool, true, false, not, Option, none, some, List, [], ◌∷◌, ◌++◌, keep, last?, leb, ◌==◌,
  if◌then◌else◌, get_or,
}
use opa_security_awareness_a.Common.Text.{Text, codes, text_eq, decimal}
use opa_security_awareness_a.Timeline.Json.{
  Json, null, number, string, object, end, member, canonicalise, stringify,
}

-- A row of incident_timeline_events.
pub record Event : Type 0 where
  pub incident_id : Text
  pub sequence : ℕ
  pub type : Text
  pub payload : Option Json
  pub source : Text
  pub actor_user_id : Option Text
  pub correlation_id : Option Text
  pub occurred_at : Text
  pub previous_hash : Option Text
  pub hash : Text

-- RecordTimelineEventParams.
pub record Params : Type 0 where
  pub incident_id : Text
  pub type : Text
  pub payload : Option Json
  pub source : Text
  pub actor_user_id : Option Text
  pub correlation_id : Option Text
  pub occurred_at : Option Text

pub record HashInput : Type 0 where
  pub incident_id : Text
  pub sequence : ℕ
  pub type : Text
  pub payload : Json
  pub occurred_at : Text
  pub previous_hash : Option Text

abbrev or_null : Option Text → Json
or_null none = null
or_null (some t) = string t

-- The text that is hashed.
unfoldable pub document : HashInput → Text
document i = stringify (
    object (
      member (codes "incidentId") (string i.incident_id) (
        member (codes "sequence") (number (decimal i.sequence)) (
          member (codes "type") (string i.type) (
            member (codes "payload") (canonicalise i.payload) (
              member (codes "occurredAt") (string i.occurred_at)
                (member (codes "previousHash") (or_null i.previous_hash) end)))))))

-- What the checks hash again of a stored event; a payload that is null counts as empty.
unfoldable pub hash_input : Event → HashInput
hash_input e = record {
  incident_id = e.incident_id;
  sequence = e.sequence;
  type = e.type;
  payload = get_or e.payload (object end);
  occurred_at = e.occurred_at;
  previous_hash = e.previous_hash;
}

-- `a === b` for a text or null.
unfoldable pub same_hash : Option Text → Option Text → Bool
same_hash none none = true
same_hash none (some u) = false
same_hash (some t) none = false
same_hash (some t) (some u) = text_eq t u

unfoldable pub insert_event : Event → List Event → List Event
insert_event e [] = e ∷ []
insert_event e (f ∷ fs) =
    let rest = insert_event e fs in if leb e.sequence f.sequence then e ∷ f ∷ fs else f ∷ rest

unfoldable pub by_sequence : List Event → List Event
unfolding insert_event
by_sequence [] = []
by_sequence (e ∷ es) = insert_event e (by_sequence es)

-- `getTimeline`: the events of an incident, in the order of their sequence numbers.
unfoldable pub get_timeline : Text → List Event → List Event
get_timeline incident_id table =
    by_sequence (keep (λ (e : Event). text_eq e.incident_id incident_id) table)

abbrev pub last_sequence : Option Event → ℕ
last_sequence none = 0
last_sequence (some e) = e.sequence

abbrev pub last_hash : Option Event → Option Text
last_hash none = none
last_hash (some e) = some e.hash

-- `{ valid: boolean; brokenAtSequence?: number }`.
pub data Verdict : Type 0 where
  valid : Verdict
  broken_at : ℕ → Verdict

unfoldable pub structural_from : List Event → ℕ → Option Text → Verdict
structural_from [] expected previous = valid
structural_from (e ∷ es) expected previous =
    let rest = structural_from es (expected + 1) (some e.hash) in
    if not (e.sequence == expected)
    then broken_at e.sequence
    else if not (same_hash e.previous_hash previous)
    then broken_at e.sequence
    else rest

unfoldable pub verify_structural_chain : Text → List Event → Verdict
verify_structural_chain incident_id table = structural_from (get_timeline incident_id table) 1 none

-- The last event of a timeline and the one before it.
unfoldable pub tail_of : List Event → Option (Option Event × Event)
tail_of [] = none
tail_of (e ∷ []) = some (none, e)
tail_of (d ∷ e ∷ []) = some (some d, e)
tail_of (d ∷ e ∷ f ∷ es) = tail_of (e ∷ f ∷ es)

module _ (hex : Text → Text) where
  unfoldable pub compute_hash : HashInput → Text
  compute_hash i = hex (document i)

  -- The event that `recordEvent` stores after the last one; `now` is the time of the call.
  unfoldable pub next_event : Params → Text → Option Event → Event
  next_event p now last =
      let occurred_at = get_or p.occurred_at now in
      let payload = get_or p.payload (object end) in
      let sequence = last_sequence last + 1 in
      record {
        incident_id = p.incident_id;
        sequence = sequence;
        type = p.type;
        payload = some payload;
        source = p.source;
        actor_user_id = p.actor_user_id;
        correlation_id = p.correlation_id;
        occurred_at = occurred_at;
        previous_hash = last_hash last;
        hash = compute_hash (record {
          incident_id = p.incident_id;
          sequence = sequence;
          type = p.type;
          payload = payload;
          occurred_at = occurred_at;
          previous_hash = last_hash last;
        });
      }

  -- `recordEvent`: the incident's lock is held from the read of its last event to the insert.
  unfoldable pub record_event : Params → Text → List Event → List Event
  record_event p now table =
      table ++ next_event p now (last? (get_timeline p.incident_id table)) ∷ []

  unfoldable pub chain_from : List Event → Option Text → Verdict
  chain_from [] previous = valid
  chain_from (e ∷ es) previous =
      let rest = chain_from es (some e.hash) in
      if not (same_hash e.previous_hash previous)
      then broken_at e.sequence
      else if not (text_eq (compute_hash (hash_input e)) e.hash)
      then broken_at e.sequence
      else rest

  unfoldable pub verify_chain : Text → List Event → Verdict
  verify_chain incident_id table = chain_from (get_timeline incident_id table) none

  unfoldable pub verify_tail : Option Event → Event → Verdict
  verify_tail before e =
      if not (same_hash e.previous_hash (last_hash before))
      then broken_at e.sequence
      else if not (e.sequence == last_sequence before + 1)
      then broken_at e.sequence
      else if not (text_eq (compute_hash (hash_input e)) e.hash)
      then broken_at e.sequence
      else valid

  unfoldable pub verify_tail_event : Text → List Event → Verdict
  verify_tail_event incident_id table = elim (tail_of (get_timeline incident_id table)) [
    | none ↦ valid
    | some (before, e) ↦ verify_tail before e
  ]
