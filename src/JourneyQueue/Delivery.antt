-- ===== src/JourneyQueue/Delivery.antt =====
-- What a whole replay of one session does to the queue (journey-replay.ts).
use opa_security_awareness_a.Common.{
  ℕ, ◌<◌, ◌≡◌, ◌≢◌, refl, sym, ap, ◌∙◌, inl, inr, Bool, true, false, Option, none, List, length,
  take, drop, keep, arith, map, Bool-cases, Option-cases, ok, Result-cases, ◌==◌, subst, length-map,
}
use opa_security_awareness_a.Common.Text.{Text}
use opa_security_awareness_a.JourneyQueue.Store.{Row, Store, TrackedFix, count}
use opa_security_awareness_a.JourneyQueue.Read.{in_session, list_oldest_for_session}
use opa_security_awareness_a.JourneyQueue.Lease.{
  delete_acknowledged_for_session, try_acquire_replay_lease, release_replay_lease,
}
use opa_security_awareness_a.JourneyQueue.Valid.{DistinctKeys}
use opa_security_awareness_a.JourneyQueue.Drain.{
  session_rows, list_oldest_for_session-eq, delete_acknowledged_listed,
}
use opa_security_awareness_a.JourneyQueue.Replay.{
  Outcome, lease_busy, empty, sent, delete_shortfall, http_error, HttpError, to_payload, keys_of,
  acknowledge, release_after, after_post, replay_batch, max_batch, lease_ms,
  replay_journey_session_with_lease,
}

acquire-rows :
    (owner : Text) (now ms : ℕ) (s : Store) {b : Bool} {s' : Store}
    → try_acquire_replay_lease owner now ms s ≡ ok (b, s')
    → s'.rows ≡ s.rows
unfolding try_acquire_replay_lease
acquire-rows owner now ms s h = ground arith

release_after-rows : (owner : Text) (s : Store) → (release_after owner s).rows ≡ s.rows
unfolding release_after release_replay_lease
release_after-rows owner s = ground arith

-- What one batch of a session removes: nothing, or its oldest rows up to two hundred, after the
-- server has taken exactly these.
abbrev pub Drained :
    (Text → List TrackedFix → Option HttpError) → Text → Outcome → List Row → Store → Type 0
Drained post session (sent n removed depth) rows s' =
    let listed : List Row = take max_batch rows in
    (n ≡ length listed)
    × (removed ≡ n)
    × (0 < n)
    × (depth ≡ count s')
    × (post session (map to_payload listed) ≡ none)
    × (session_rows session s' ≡ drop max_batch rows)
Drained post session (delete_shortfall n removed depth) rows s' = ⊥
Drained post session _ rows s' = session_rows session s' ≡ rows

-- ... and nothing of any other session.
abbrev pub DrainedOnly :
    (Text → List TrackedFix → Option HttpError) → Text → Store → Outcome → Store → Type 0
DrainedOnly post session s o s' =
    Drained post session o (session_rows session s) s'
    × ((t : Text) → session ≢ t → session_rows t s' ≡ session_rows t s)

-- Carry a fact over to what a call returns.
returned :
    (P : Outcome → Store → Type 0) {a o : Outcome} {b s' : Store} → P a b → a ≡ o → b ≡ s' → P o s'
returned P {a} {o} {b} {s'} p first second = subst (λ x. P x s') first (subst (P a) second p)

list-rows :
    (session : Text) (limit : ℕ) (s t : Store)
    → s.rows ≡ t.rows
    → list_oldest_for_session session limit s ≡ list_oldest_for_session session limit t
unfolding list_oldest_for_session
list-rows session limit s t e = rw e

module _ (post : Text → List TrackedFix → Option HttpError) (others : Store → Store)
    (quiet : (s : Store) → (others s).rows ≡ s.rows) where
  moved :
      (session : Text) (o : Outcome) (s t u : Store)
      → t.rows ≡ s.rows
      → DrainedOnly post session t o u
      → DrainedOnly post session s o u
  moved session o s t u e d =
      subst
        (λ rs.
          Drained post session o (keep (in_session session) rs) u
          × ((x : Text) → session ≢ x → session_rows x u ≡ keep (in_session x) rs))
        e d

  acknowledge-Drained :
      (session : Text) (s : Store) (rows : List Row) {o : Outcome} {s' : Store}
      → DistinctKeys s.rows
      → list_oldest_for_session session max_batch s ≡ ok rows
      → 0 < length rows
      → post session (map to_payload rows) ≡ none
      → acknowledge session rows (others s) ≡ ok (o, s')
      → DrainedOnly post session s o s'
  unfolding acknowledge
  acknowledge-Drained session s rows {o} {s'} d listed long sent' h =
      elim (Result-cases (delete_acknowledged_for_session session (keys_of rows) (others s))) [
        | inr (x, e) ↦ absurd (ground arith)
        | inl ((n, t), e) ↦
            let same = quiet s in
            let (exact, later, kept, _, _) =
              delete_acknowledged_listed session max_batch (others s) t rows {n = n}
                (subst DistinctKeys (sym same) d)
                (list-rows session max_batch (others s) s same ∙ listed) e in
            let cut = list_oldest_for_session-eq session max_batch s listed in
            returned (DrainedOnly post session s) {a = sent (length (keys_of rows)) n (count t)}
              {b = t}
              (
                (
                  length-map _ rows ∙ ap length cut,
                  exact ∙ sym (length-map _ rows),
                  rw (length-map (λ (r : Row). r.idempotency_key) rows) long,
                  refl,
                  ap (λ rs. post session (map to_payload rs)) (sym cut) ∙ sent',
                  later ∙ ap (λ rs. drop max_batch (keep (in_session session) rs)) same,
                ),
                λ u ne. kept u ne ∙ ap (keep (in_session u)) same,
              )
              (ground (arith, exact, length-map (λ (r : Row). r.idempotency_key) rows))
              (ground (arith, exact, length-map (λ (r : Row). r.idempotency_key) rows))
      ]

  batch-Drained :
      (session : Text) (s : Store) {o : Outcome} {s' : Store}
      → DistinctKeys s.rows
      → replay_batch post others session s ≡ ok (o, s')
      → DrainedOnly post session s o s'
  unfolding replay_batch after_post
  batch-Drained session s {o} {s'} d h =
      elim (Result-cases (list_oldest_for_session session max_batch s)) [
        | inr (x, e) ↦ absurd (ground arith)
        | inl (rows, e) ↦ elim (Bool-cases (length rows == 0)) [
          | inl none' ↦
              returned (DrainedOnly post session s) {a = empty} {b = s} (refl, λ t ne. refl)
                (ground arith) (ground arith)
          | inr long ↦ elim (Option-cases (post session (map to_payload rows))) [
            | inr (x, f) ↦
                returned (DrainedOnly post session s) {a = http_error x} {b = others s}
                  (
                    ap (keep (in_session session)) (quiet s),
                    λ t ne. ap (keep (in_session t)) (quiet s),
                  )
                  (ground arith) (ground arith)
            | inl f ↦ acknowledge-Drained session s rows d e (ground arith) f (ground arith)
          ]
        ]
      ]

  Drained-rows :
      (session : Text) (o : Outcome) (rows : List Row) (t u : Store)
      → t.rows ≡ u.rows
      → Drained post session o rows t
      → Drained post session o rows u
  Drained-rows session lease_busy rows t u e d = ap (keep (in_session session)) (sym e) ∙ d
  Drained-rows session empty rows t u e d = ap (keep (in_session session)) (sym e) ∙ d
  Drained-rows session (http_error x) rows t u e d = ap (keep (in_session session)) (sym e) ∙ d
  Drained-rows session (delete_shortfall a b c) rows t u e d = d
  Drained-rows session (sent n removed depth) rows t u e (a, b, c, f, g, h) =
      (a, b, c, f ∙ unfold count in ap length e, g, ap (keep (in_session session)) (sym e) ∙ h)

  -- A replay that returns, over a queue of distinct keys that no other context writes meanwhile,
  -- either removes nothing, or removes exactly the oldest rows of its session, up to two hundred,
  -- which the server has accepted in one request; it never reports a shortfall, never touches
  -- another session's rows, and its counts are those of the queue it leaves.
  pub replay-DrainedOnly :
      (session owner : Text) (now : ℕ) (s : Store) {o : Outcome} {s' : Store}
      → DistinctKeys s.rows
      → replay_journey_session_with_lease post others session owner now s ≡ (ok o, s')
      → DrainedOnly post session s o s'
  unfolding replay_journey_session_with_lease
  replay-DrainedOnly session owner now s {o} {s'} d h =
      elim (Result-cases (try_acquire_replay_lease owner now lease_ms s)) [
        | inr (x, e) ↦ absurd (ground arith)
        | inl ((false, t), e) ↦
            let same = acquire-rows owner now lease_ms s {b = false} {s' = t} e in
            returned (DrainedOnly post session s) {a = lease_busy} {b = t}
              (ap (keep (in_session session)) same, λ u ne. ap (keep (in_session u)) same)
              (ground arith) (ground arith)
        | inl ((true, t), e) ↦ elim (Result-cases (replay_batch post others session t)) [
          | inr (x, f) ↦ absurd (ground arith)
          | inl ((y, u), f) ↦
              let same = acquire-rows owner now lease_ms s {b = true} {s' = t} e in
              let (own, rest) =
                moved session y s t u same
                  (batch-Drained session t (subst DistinctKeys (sym same) d) f) in
              let after = sym (release_after-rows owner u) in
              returned (DrainedOnly post session s) {a = y} {b = release_after owner u}
                (
                  Drained-rows session y (session_rows session s) u (release_after owner u) after
                      own,
                  λ x ne. ap (keep (in_session x)) (sym after) ∙ rest x ne,
                )
                (ground arith) (ground arith)
        ]
      ]
