-- ===== src/Timeline/Append.antt =====
-- What appending an event does to the checks of a timeline.
use opa_security_awareness_a.Common.{
  ℕ, ◌+◌, ◌≡◌, refl, sym, ap, ◌∙◌, inl, inr, true, false, Option, none, some, List, [], ◌∷◌, ◌++◌,
  last?, ◌==◌, arith, Bool-cases,
}
use opa_security_awareness_a.Common.Text.{Text, text_eq, text_eq_refl}
use opa_security_awareness_a.Timeline.Chain.{
  Event, Params, get_timeline, last_sequence, last_hash, next_event, record_event, same_hash,
  structural_from, chain_from, tail_of, verify_tail, verify_chain, verify_structural_chain,
  verify_tail_event, hash_input, compute_hash, valid,
}
use opa_security_awareness_a.Timeline.Sequence.{
  get_timeline-record_event, get_timeline-record_other,
}

-- The hash and the number that the next event is checked against.
abbrev end_hash : List Event → Option Text → Option Text
end_hash [] h = h
end_hash (e ∷ es) h = end_hash es (some e.hash)

abbrev end_sequence : List Event → ℕ → ℕ
end_sequence [] n = n
end_sequence (e ∷ es) n = end_sequence es e.sequence

end_hash-eq-last :
    (es : List Event) (e : Event) (h : Option Text)
    → end_hash (e ∷ es) h ≡ last_hash (last? (e ∷ es))
end_hash-eq-last [] e h = refl
end_hash-eq-last (f ∷ es) e h = end_hash-eq-last es f (some e.hash)

end_sequence-eq-last :
    (es : List Event) (e : Event) (n : ℕ) → end_sequence (e ∷ es) n ≡ last_sequence (last? (e ∷ es))
end_sequence-eq-last [] e n = refl
end_sequence-eq-last (f ∷ es) e n = end_sequence-eq-last es f e.sequence

end_hash-none : (es : List Event) → end_hash es none ≡ last_hash (last? es)
end_hash-none [] = refl
end_hash-none (e ∷ es) = end_hash-eq-last es e none

end_sequence_zero : (es : List Event) → end_sequence es 0 ≡ last_sequence (last? es)
end_sequence_zero [] = refl
end_sequence_zero (e ∷ es) = end_sequence-eq-last es e 0

same_hash_refl : (h : Option Text) → same_hash h h ≡ true
unfolding same_hash
same_hash_refl none = refl
same_hash_refl (some t) = text_eq_refl t

chain_from-append :
    (hex : Text → Text) (es : List Event) (x : Event) (h : Option Text)
    → same_hash x.previous_hash (end_hash es h) ≡ true
    → text_eq (compute_hash hex (hash_input x)) x.hash ≡ true
    → chain_from hex (es ++ x ∷ []) h ≡ chain_from hex es h
unfolding chain_from
chain_from-append hex [] x h linked hashed = ground arith
chain_from-append hex (e ∷ es) x h linked hashed =
    ground (arith, chain_from-append hex es x (some e.hash) linked hashed)

structural_from-append :
    (es : List Event) (x : Event) (n : ℕ) (h : Option Text)
    → same_hash x.previous_hash (end_hash es h) ≡ true
    → x.sequence ≡ end_sequence es n + 1
    → structural_from (es ++ x ∷ []) (n + 1) h ≡ structural_from es (n + 1) h
unfolding structural_from
structural_from-append [] x n h linked next = ground arith
structural_from-append (e ∷ es) x n h linked next = elim (Bool-cases (e.sequence == n + 1)) [
  | inr c ↦ ground arith
  | inl c ↦
      let number : e.sequence ≡ n + 1 = ground arith in
      ground (
        arith,
        structural_from-append es x (n + 1) (some e.hash) linked
            (next ∙ ap (λ m. end_sequence es m + 1) number),
      )
]

tail_of-append : (es : List Event) (x : Event) → tail_of (es ++ x ∷ []) ≡ some (last? es, x)
unfolding tail_of
tail_of-append [] x = refl
tail_of-append (e ∷ []) x = refl
tail_of-append (e ∷ f ∷ []) x = refl
tail_of-append (e ∷ f ∷ g ∷ gs) x = tail_of-append (f ∷ g ∷ gs) x

next_event-hash :
    (hex : Text → Text) (p : Params) (now : Text) (last : Option Event)
    → text_eq
        (compute_hash hex (hash_input (next_event hex p now last)))
        (next_event hex p now last).hash
      ≡ true
unfolding next_event hash_input
next_event-hash hex p now last = text_eq_refl _

next_event-links :
    (hex : Text → Text) (p : Params) (now : Text) (es : List Event)
    → (same_hash (next_event hex p now (last? es)).previous_hash (end_hash es none) ≡ true)
      × ((next_event hex p now (last? es)).sequence ≡ end_sequence es 0 + 1)
unfolding next_event
next_event-links hex p now es = (
  ap (same_hash (last_hash (last? es))) (end_hash-none es) ∙ same_hash_refl (last_hash (last? es)),
  ap (λ n. n + 1) (sym (end_sequence_zero es)),
)

-- An event is appended to any stored table: the two checks of the whole chain of its incident give
-- the verdict they gave before, so an append neither breaks a chain nor mends one; the check of the
-- last event passes; and the timelines of other incidents are as they were.
pub record_event_checks :
    (hex : Text → Text) (p : Params) (now other : Text) (table : List Event)
    → text_eq p.incident_id other ≡ false
    → let after = record_event hex p now table in
      (verify_chain hex p.incident_id after ≡ verify_chain hex p.incident_id table)
      × (verify_structural_chain p.incident_id after ≡ verify_structural_chain p.incident_id table)
      × (verify_tail_event hex p.incident_id after ≡ valid)
      × (get_timeline other after ≡ get_timeline other table)
unfolding verify_chain verify_structural_chain verify_tail_event verify_tail
record_event_checks hex p now other table h =
    let es = get_timeline p.incident_id table in
    let x = next_event hex p now (last? es) in
    let appended = get_timeline-record_event hex p now table in
    let (linked, next) = next_event-links hex p now es in
    (
      ap (λ l. chain_from hex l none) appended
          ∙ chain_from-append hex es x none linked (next_event-hash hex p now (last? es)),
      ap (λ l. structural_from l 1 none) appended ∙ structural_from-append es x 0 none linked next,
      ground (
        arith,
        appended,
        tail_of-append es x,
        end_hash-none es,
        end_sequence_zero es,
        next_event-hash hex p now (last? es),
      ),
      get_timeline-record_other hex p now other table h,
    )
