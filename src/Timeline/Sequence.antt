-- ===== src/Timeline/Sequence.antt =====
-- The order of a timeline: an event that is appended comes last.
use opa_security_awareness_a.Common.{
  ◌≤◌, ◌≡◌, refl, ap, ◌∙◌, inl, inr, false, List, [], ◌∷◌, ◌++◌, keep, last?, leb, All, All-map,
  keep-append, arith, Bool-cases, append-nil,
}
use opa_security_awareness_a.Common.Text.{Text, text_eq, text_eq_refl}
use opa_security_awareness_a.Timeline.Chain.{
  Event, Params, insert_event, by_sequence, get_timeline, last_sequence, next_event, record_event,
}

abbrev IsOrdered : List Event → Type 0
IsOrdered [] = Unit
IsOrdered (e ∷ es) = All (λ (f : Event). e.sequence ≤ f.sequence) es × IsOrdered es

All-insert_event :
    (P : Event → Type 0) (e : Event) (es : List Event) → P e → All P es → All P (insert_event e es)
unfolding insert_event
All-insert_event P e [] p h = (p, tt)
All-insert_event P e (f ∷ fs) p h = ground (arith, All-insert_event P e fs p h.1)

All-insert_event_inv :
    (P : Event → Type 0) (e : Event) (es : List Event) → All P (insert_event e es) → P e × All P es
unfolding insert_event
All-insert_event_inv P e [] h = h
All-insert_event_inv P e (f ∷ fs) h = elim (Bool-cases (leb e.sequence f.sequence)) [
  | inl c ↦ ground arith
  | inr c ↦
      let both : P f × All P (insert_event e fs) = ground arith in
      let (p, rest) = All-insert_event_inv P e fs both.1 in (p, (both.0, rest))
]

All-by_sequence_inv : (P : Event → Type 0) (es : List Event) → All P (by_sequence es) → All P es
unfolding by_sequence
All-by_sequence_inv P [] h = tt
All-by_sequence_inv P (e ∷ es) h =
    let (p, rest) = All-insert_event_inv P e (by_sequence es) h in
    (p, All-by_sequence_inv P es rest)

insert_event-IsOrdered :
    (e : Event) (es : List Event) → IsOrdered es → IsOrdered (insert_event e es)
unfolding insert_event
insert_event-IsOrdered e [] h = (tt, tt)
insert_event-IsOrdered e (f ∷ fs) h = elim (Bool-cases (leb e.sequence f.sequence)) [
  | inl c ↦
      let later : All (λ (g : Event). e.sequence ≤ g.sequence) fs =
        All-map (λ (g : Event). f.sequence ≤ g.sequence) (λ (g : Event). e.sequence ≤ g.sequence)
          (λ g k. ground arith) fs h.0 in
      ground arith
  | inr c ↦ ground (
    arith,
    insert_event-IsOrdered e fs h.1,
    All-insert_event (λ (g : Event). f.sequence ≤ g.sequence) e fs (ground arith) h.0,
  )
]

by_sequence-IsOrdered : (es : List Event) → IsOrdered (by_sequence es)
unfolding by_sequence
by_sequence-IsOrdered [] = tt
by_sequence-IsOrdered (e ∷ es) = insert_event-IsOrdered e _ (by_sequence-IsOrdered es)

ordered-le-last :
    (es : List Event) → IsOrdered es → All (λ (e : Event). e.sequence ≤ last_sequence (last? es)) es
ordered-le-last [] h = tt
ordered-le-last (e ∷ []) h = (omega arith, tt)
ordered-le-last (e ∷ f ∷ r) h =
    let rest = ordered-le-last (f ∷ r) h.1 in (omega (arith, h.0.0, rest.0), rest)

insert_event-append :
    (e x : Event) (es : List Event)
    → e.sequence ≤ x.sequence
    → insert_event e (es ++ x ∷ []) ≡ insert_event e es ++ x ∷ []
unfolding insert_event
insert_event-append e x [] h = ground arith
insert_event-append e x (f ∷ fs) h = ground (arith, insert_event-append e x fs h)

by_sequence-append :
    (es : List Event) (x : Event)
    → All (λ (e : Event). e.sequence ≤ x.sequence) es
    → by_sequence (es ++ x ∷ []) ≡ by_sequence es ++ x ∷ []
unfolding by_sequence insert_event
by_sequence-append [] x h = refl
by_sequence-append (e ∷ es) x h =
    ap (insert_event e) (by_sequence-append es x h.1) ∙ insert_event-append e x (by_sequence es) h.0

-- The timeline of the incident that an event is recorded for ends with that event.
pub get_timeline-record_event :
    (hex : Text → Text) (p : Params) (now : Text) (table : List Event)
    → get_timeline p.incident_id (record_event hex p now table)
      ≡ get_timeline p.incident_id table
        ++ next_event hex p now (last? (get_timeline p.incident_id table)) ∷ []
unfolding get_timeline record_event next_event
get_timeline-record_event hex p now table =
    let mine = keep (λ (e : Event). text_eq e.incident_id p.incident_id) table in
    let x = next_event hex p now (last? (by_sequence mine)) in
    let low =
      All-by_sequence_inv (λ (e : Event). e.sequence ≤ last_sequence (last? (by_sequence mine)))
        mine (ordered-le-last (by_sequence mine) (by_sequence-IsOrdered mine)) in
    ap by_sequence (
      keep-append (λ (e : Event). text_eq e.incident_id p.incident_id) table (x ∷ [])
      ∙ ap (λ r. mine ++ r) (rw (text_eq_refl p.incident_id) (refl)))
    ∙ by_sequence-append mine x (
        All-map (λ (e : Event). e.sequence ≤ last_sequence (last? (by_sequence mine)))
          (λ (e : Event). e.sequence ≤ x.sequence) (λ e k. omega arith) mine low)

-- The timelines of other incidents stay as they are.
pub get_timeline-record_other :
    (hex : Text → Text) (p : Params) (now other : Text) (table : List Event)
    → text_eq p.incident_id other ≡ false
    → get_timeline other (record_event hex p now table) ≡ get_timeline other table
unfolding get_timeline record_event next_event
get_timeline-record_other hex p now other table h = ap by_sequence (
    keep-append (λ (e : Event). text_eq e.incident_id other) table _
    ∙ ap (λ r. keep (λ (e : Event). text_eq e.incident_id other) table ++ r) (rw h refl)
    ∙ append-nil _)
