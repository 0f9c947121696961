-- ===== src/System/Keys.antt =====
-- Where the keys of a queue go when it is replayed.
use opa_security_awareness_a.Common.{
  ℕ, ◌≡◌, sym, ap, subst, ◌∙◌, ◌⊎◌, inl, inr, Bool, true, false, not, any, Option, none, err, List,
  [], ◌∷◌, keep, take, map, length, ok, arith, Bool-cases, Option-cases, Result-cases, ◌==◌,
}
use opa_security_awareness_a.Common.Text.{Text, text_eq, text_eq_sound, text_eq_refl}
use opa_security_awareness_a.JourneyQueue.Store.{Error, Row, Store, TrackedFix, has_key}
use opa_security_awareness_a.JourneyQueue.Read.{in_session, list_oldest_for_session}
use opa_security_awareness_a.JourneyQueue.Lease.{
  is_acknowledged, delete_acknowledged_for_session, try_acquire_replay_lease, release_replay_lease,
}
use opa_security_awareness_a.JourneyQueue.Valid.{DistinctKeys, DistinctKeys-keep}
use opa_security_awareness_a.JourneyQueue.Drain.{session_rows, list_oldest_for_session-eq}
use opa_security_awareness_a.JourneyQueue.Replay.{
  HttpError, Outcome, max_batch, lease_ms, to_payload, keys_of, acknowledge, release_after,
  after_post, replay_batch, replay_journey_session_with_lease,
}
use opa_security_awareness_a.System.Network.{posted}

-- A replay only removes rows.
pub acquire-kept :
    (owner : Text) (now ms : ℕ) (s : Store) {b : Bool} {s' : Store}
    → try_acquire_replay_lease owner now ms s ≡ ok (b, s')
    → s'.rows ≡ s.rows
unfolding try_acquire_replay_lease
acquire-kept owner now ms s h = ground arith

release-kept : (owner : Text) (s : Store) → (release_after owner s).rows ≡ s.rows
unfolding release_after release_replay_lease
release-kept owner s = ground arith

acknowledge-DistinctKeys :
    (session : Text) (rows : List Row) (s : Store) {o : Outcome} {s' : Store}
    → DistinctKeys s.rows
    → acknowledge session rows s ≡ ok (o, s')
    → DistinctKeys s'.rows
unfolding acknowledge delete_acknowledged_for_session
acknowledge-DistinctKeys session rows s {o} {s'} d h =
    ground (arith, DistinctKeys-keep (λ r. not (is_acknowledged session (keys_of rows) r)) s.rows d)

text_eq_symm : (a b : Text) → text_eq a b ≡ true → text_eq b a ≡ true
text_eq_symm a b h = ap (λ x. text_eq x a) (sym (text_eq_sound a b h)) ∙ text_eq_refl a

keys_of-has_key :
    (k : Text) (rows : List Row) → any (text_eq k) (keys_of rows) ≡ true → has_key k rows ≡ true
unfolding has_key
keys_of-has_key k [] h = h
keys_of-has_key k (r ∷ rows) h = elim (Bool-cases (text_eq k r.idempotency_key)) [
  | inl e ↦ ground (arith, text_eq_symm k r.idempotency_key e)
  | inr e ↦ ground (arith, keys_of-has_key k rows)
]

-- A key is among those that stay, or among those that were acknowledged.
kept_or_acknowledged :
    (session k : Text) (keys : List Text) (rows : List Row)
    → has_key k rows ≡ true
    → (has_key k (keep (λ r. not (is_acknowledged session keys r)) rows) ≡ true)
      ⊎ (any (text_eq k) keys ≡ true)
unfolding has_key is_acknowledged
kept_or_acknowledged session k keys [] h = inl h
kept_or_acknowledged session k keys (r ∷ rows) h = elim (Bool-cases (text_eq r.idempotency_key k)) [
  | inr miss ↦ elim (kept_or_acknowledged session k keys rows (ground arith)) [
    | inl e ↦ inl (ground (arith, e))
    | inr e ↦ inr e
  ]
  | inl hit ↦ elim (Bool-cases (any (text_eq r.idempotency_key) keys)) [
    | inl e ↦ inr (ap (λ x. any (text_eq x) keys) (sym (text_eq_sound r.idempotency_key k hit)) ∙ e)
    | inr e ↦ inl (ground arith)
  ]
]

acknowledge-kept :
    (session k : Text) (rows : List Row) (s : Store) {o : Outcome} {s' : Store}
    → has_key k s.rows ≡ true
    → acknowledge session rows s ≡ ok (o, s')
    → (has_key k s'.rows ≡ true) ⊎ (has_key k rows ≡ true)
unfolding acknowledge delete_acknowledged_for_session
acknowledge-kept session k rows s {o} {s'} q h =
    elim (kept_or_acknowledged session k (keys_of rows) s.rows q) [
      | inl e ↦ inl (ground (arith, e, q))
      | inr e ↦ inr (keys_of-has_key k rows e)
    ]

module _ (post : Text → List TrackedFix → Option HttpError) (others : Store → Store) where
  -- A batch that is posted keeps a key that is in the queue when the answer comes, or the server
  -- took the batch and the key was in it.
  batch-kept :
      (session : Text) (s : Store) {o : Outcome} {s' : Store}
      → replay_batch post others session s ≡ ok (o, s')
      → posted o ≡ true
      → DistinctKeys (others s).rows
      → DistinctKeys s'.rows
        × ((k : Text)
            → has_key k (others s).rows ≡ true
            → (has_key k s'.rows ≡ true)
              ⊎ ((post session (map to_payload (take max_batch (session_rows session s))) ≡ none)
                  × (has_key k (take max_batch (session_rows session s)) ≡ true)))
  unfolding replay_batch after_post
  batch-kept session s {o} {s'} h sent' d =
      elim (Result-cases (list_oldest_for_session session max_batch s)) [
        | inr (x, e) ↦ ground arith
        | inl (rows, e) ↦ elim (Bool-cases (length rows == 0)) [
          | inl nothing ↦ ground arith
          | inr some' ↦
              let cut = list_oldest_for_session-eq session max_batch s e in
              elim (Option-cases (post session (map to_payload rows))) [
                | inr (x, f) ↦
                    let same : (others s).rows ≡ s'.rows = ground arith in
                    (subst DistinctKeys same d, λ k q. inl (ap (has_key k) (sym same) ∙ q))
                | inl f ↦
                    let done : acknowledge session rows (others s) ≡ ok (o, s') = ground arith in
                    (
                      acknowledge-DistinctKeys session rows (others s) {o = o} {s' = s'} d done,
                      λ k q.
                          elim (acknowledge-kept session k rows (others s) {o = o} {s' = s'} q
                            done) [
                              | inl kept ↦ inl kept
                              | inr taken ↦ inr (
                                ap (λ rs. post session (map to_payload rs)) (sym cut) ∙ f,
                                ap (has_key k) (sym cut) ∙ taken,
                              )
                            ],
                    )
              ]
        ]
      ]

  pub replay-kept :
      (session owner : Text) (at : ℕ) (s mid : Store) {o : Outcome} {s' : Store}
      → try_acquire_replay_lease owner at lease_ms s ≡ ok (true, mid)
      → replay_journey_session_with_lease post others session owner at s ≡ (ok o, s')
      → posted o ≡ true
      → DistinctKeys (others mid).rows
      → DistinctKeys s'.rows
        × ((k : Text)
            → has_key k (others mid).rows ≡ true
            → (has_key k s'.rows ≡ true)
              ⊎ ((post session (map to_payload (take max_batch (session_rows session s))) ≡ none)
                  × (has_key k (take max_batch (session_rows session s)) ≡ true)))
  unfolding replay_journey_session_with_lease
  replay-kept session owner at s mid {o} {s'} got h sent' d =
      elim (Result-cases (replay_batch post others session mid)) [
        | inr (x, f) ↦ ground arith
        | inl ((y, u), f) ↦
            let same : y ≡ o = ground arith in
            let rows : s'.rows ≡ u.rows = ground (arith, release-kept owner u) in
            let before : mid.rows ≡ s.rows =
              acquire-kept owner at lease_ms s {b = true} {s' = mid} got in
            let (d', kept) = batch-kept session mid {o = y} {s' = u} f (ap posted same ∙ sent') d in
            (
              subst DistinctKeys (sym rows) d',
              λ k q. elim (kept k q) [
                | inl e ↦ inl (ap (has_key k) rows ∙ e)
                | inr (e, g) ↦ inr (
                  ap
                        (λ rs.
                          post session
                            (map to_payload (take max_batch (keep (in_session session) rs))))
                        (sym before)
                      ∙ e,
                  ap (λ rs. has_key k (take max_batch (keep (in_session session) rs))) (sym before)
                      ∙ g,
                )
              ],
            )
      ]

  batch-skips :
      (session : Text) (s : Store) {o : Outcome} {s' : Store}
      → replay_batch post others session s ≡ ok (o, s')
      → posted o ≡ false
      → s'.rows ≡ s.rows
  unfolding replay_batch after_post acknowledge
  batch-skips session s {o} {s'} h z =
      elim (Result-cases (list_oldest_for_session session max_batch s)) [
        | inr (x, e) ↦ ground arith
        | inl (rows, e) ↦ elim (Bool-cases (length rows == 0)) [
          | inl nothing ↦ ground arith
          | inr some' ↦ elim (Option-cases (post session (map to_payload rows))) [
            | inr (x, f) ↦ ground arith
            | inl f ↦ ground arith
          ]
        ]
      ]

  -- A replay that posts nothing leaves the rows as they are.
  pub replay-skips :
      (session owner : Text) (at : ℕ) (s : Store) {o : Outcome} {s' : Store}
      → replay_journey_session_with_lease post others session owner at s ≡ (ok o, s')
      → posted o ≡ false
      → s'.rows ≡ s.rows
  unfolding replay_journey_session_with_lease
  replay-skips session owner at s {o} {s'} h z =
      elim (Result-cases (try_acquire_replay_lease owner at lease_ms s)) [
        | inr (x, e) ↦ ground arith
        | inl ((false, t), e) ↦
            ground (arith, acquire-kept owner at lease_ms s {b = false} {s' = t} e)
        | inl ((true, t), e) ↦
            let before = acquire-kept owner at lease_ms s {b = true} {s' = t} e in
            elim (Result-cases (replay_batch post others session t)) [
              | inr (x, f) ↦ ground arith
              | inl ((y, u), f) ↦
                  let same : y ≡ o = ground arith in
                  let rows : s'.rows ≡ u.rows = ground (arith, release-kept owner u) in
                  rows ∙ batch-skips session t {o = y} {s' = u} f (ap posted same ∙ z) ∙ before
            ]
      ]

  -- So does one that throws.
  pub replay-throws :
      (session owner : Text) (at : ℕ) (s : Store) {x : Error} {s' : Store}
      → replay_journey_session_with_lease post others session owner at s ≡ (err x, s')
      → s'.rows ≡ s.rows
  unfolding replay_journey_session_with_lease
  replay-throws session owner at s {x} {s'} h =
      elim (Result-cases (try_acquire_replay_lease owner at lease_ms s)) [
        | inr (y, e) ↦ ground arith
        | inl ((false, t), e) ↦
            ground (arith, acquire-kept owner at lease_ms s {b = false} {s' = t} e)
        | inl ((true, t), e) ↦
            let before = acquire-kept owner at lease_ms s {b = true} {s' = t} e in
            elim (Result-cases (replay_batch post others session t)) [
              | inr (y, f) ↦ ground (arith, before, release-kept owner t)
              | inl ((y, u), f) ↦ ground arith
            ]
      ]
