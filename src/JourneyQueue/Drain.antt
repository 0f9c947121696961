-- ===== src/JourneyQueue/Drain.antt =====
-- The acknowledgement, the replay lease and a whole replay of one session.
use opa_security_awareness_a.Common.{
  ℕ, zero, suc, ◌+◌, ◌<◌, ◌≡◌, ◌≢◌, refl, sym, ap, ◌∙◌, ◌⊎◌, inl, inr, Bool, true, false, none,
  List, [], ◌∷◌, length, take, drop, any, keep, arith, Bool-cases, ok, Result-cases, All, All-map,
  All-keep_self, not, subst, keep-agree, keep-and, keep-keep, keep_comm, keep-All, keep-none,
  length-keep-split, length-keep-le,
}
use opa_security_awareness_a.Common.Text.{Text, text_eq, text_eq_iff, text_eq_sound, text_eq_refl}
use opa_security_awareness_a.JourneyQueue.Store.{Row, Store, count, has_key}
use opa_security_awareness_a.JourneyQueue.Read.{in_session, map_rows, list_oldest_for_session}
use opa_security_awareness_a.JourneyQueue.Lease.{
  is_acknowledged, delete_acknowledged_for_session, try_acquire_replay_lease, release_replay_lease,
}
use opa_security_awareness_a.JourneyQueue.Valid.{DistinctKeys, DistinctKeys-keep}
use opa_security_awareness_a.JourneyQueue.Replay.{keys_of}

abbrev mem_key : List Text → Row → Bool
mem_key keys r = any (text_eq r.idempotency_key) keys

absent-keys :
    (k : Text) (n : ℕ) (rows : List Row)
    → has_key k rows ≡ false
    → any (text_eq k) (keys_of (take n rows)) ≡ false
unfolding has_key
absent-keys k zero rows h = refl
absent-keys k (suc n) [] h = refl
absent-keys k (suc n) (r ∷ rows) h =
    ground (
      arith,
      text_eq_iff k r.idempotency_key,
      text_eq_iff r.idempotency_key k,
      absent-keys k n rows,
    )

-- Below a row whose key is no other row's, its key in the list changes nothing.
other-keys :
    (r : Row) (keys : List Text) (rows : List Row)
    → has_key r.idempotency_key rows ≡ false
    → All (λ q. mem_key (r.idempotency_key ∷ keys) q ≡ mem_key keys q) rows
unfolding has_key
other-keys r keys [] h = tt
other-keys r keys (q ∷ rows) h = (ground arith, other-keys r keys rows (ground arith))

keep-mem_key-take :
    (n : ℕ) (rows : List Row)
    → DistinctKeys rows
    → keep (mem_key (keys_of (take n rows))) rows ≡ take n rows
keep-mem_key-take zero rows d = keep-none (mem_key []) rows (none-nil rows)
  where
    none-nil : (rows : List Row) → All (λ q. mem_key [] q ≡ false) rows
    none-nil [] = tt
    none-nil (q ∷ rows) = (refl, none-nil rows)
keep-mem_key-take (suc n) [] d = refl
keep-mem_key-take (suc n) (r ∷ rows) d =
    let keys = keys_of (take n rows) in
    ground (
      arith,
      text_eq_refl r.idempotency_key,
      keep-agree (mem_key (r.idempotency_key ∷ keys)) (mem_key keys) rows
          (other-keys r keys rows d.0),
      keep-mem_key-take n rows d.1,
    )

keep-not-mem_key :
    (n : ℕ) (rows : List Row)
    → DistinctKeys rows
    → keep (λ r. not (mem_key (keys_of (take n rows)) r)) rows ≡ drop n rows
keep-not-mem_key zero rows d = keep-All (λ r. not (mem_key [] r)) rows (all-nil rows)
  where
    all-nil : (rows : List Row) → All (λ q. not (mem_key [] q) ≡ true) rows
    all-nil [] = tt
    all-nil (q ∷ rows) = (refl, all-nil rows)
keep-not-mem_key (suc n) [] d = refl
keep-not-mem_key (suc n) (r ∷ rows) d =
    let keys = keys_of (take n rows) in
    ground (
      arith,
      text_eq_refl r.idempotency_key,
      keep-agree (λ (q : Row). not (mem_key (r.idempotency_key ∷ keys) q))
          (λ (q : Row). not (mem_key keys q)) rows
          (All-map _ _ (λ q e. ap not e) rows (other-keys r keys rows d.0)),
      keep-not-mem_key n rows d.1,
    )

-- Rows are handed on as they are stored.
map_rows-eq : (rows : List Row) {rows' : List Row} → map_rows rows ≡ ok rows' → rows' ≡ rows
unfolding map_rows
map_rows-eq [] h = ground arith
map_rows-eq (r ∷ rows) h = elim (Result-cases (map_rows rows)) [
  | inl (rest, e) ↦ ground (arith, map_rows-eq rows e)
  | inr (x, e) ↦ ground arith
]

-- The rows of one session, oldest first.
abbrev pub session_rows : Text → Store → List Row
session_rows session s = keep (in_session session) s.rows

pub list_oldest_for_session-eq :
    (session : Text) (limit : ℕ) (s : Store) {rows : List Row}
    → list_oldest_for_session session limit s ≡ ok rows
    → rows ≡ take limit (session_rows session s)
unfolding list_oldest_for_session
list_oldest_for_session-eq session limit s {rows} h =
    map_rows-eq (take limit (session_rows session s)) (ground arith)

other-session :
    (session t : Text) (keys : List Text)
    → session ≢ t
    → (r : Row) → in_session t r ≡ true
    → not (is_acknowledged session keys r) ≡ true
unfolding in_session is_acknowledged
other-session session t keys d r h = elim (Bool-cases (text_eq r.session_id session)) [
  | inl e ↦ absurd (d (sym (text_eq_sound r.session_id session e) ∙ text_eq_sound r.session_id t h))
  | inr e ↦ rw e refl
]

acknowledged-rows :
    (session : Text) (keys : List Text) (rows : List Row)
    → keep (is_acknowledged session keys) rows
      ≡ keep (mem_key keys) (keep (in_session session) rows)
unfolding in_session is_acknowledged
acknowledged-rows session keys rows = keep-and (in_session session) (mem_key keys) rows

nothing-acknowledged :
    (session : Text) (rows : List Row) → All (λ r. not (is_acknowledged session [] r) ≡ true) rows
unfolding is_acknowledged
nothing-acknowledged session [] = tt
nothing-acknowledged session (r ∷ rows) = (ground arith, nothing-acknowledged session rows)

delete_acknowledged-left :
    (session : Text) (keys : List Text) (s s' : Store) {n : ℕ}
    → delete_acknowledged_for_session session keys s ≡ ok (n, s')
    → (s'.rows ≡ keep (λ r. not (is_acknowledged session keys r)) s.rows)
      × (s'.lease ≡ s.lease)
      × (count s ≡ n + count s')
unfolding delete_acknowledged_for_session count
delete_acknowledged-left session [] s s' h = ground (
  arith,
  keep-All (λ (r : Row). not (is_acknowledged session [] r)) s.rows
      (nothing-acknowledged session s.rows),
)
delete_acknowledged-left session (k ∷ keys) s s' h =
    ground (arith, length-keep-le (λ (r : Row). not (is_acknowledged session (k ∷ keys) r)) s.rows)

session-acknowledged :
    (session : Text) (keys : List Text) (rows : List Row)
    → All
        (λ r. not (is_acknowledged session keys r) ≡ not (mem_key keys r))
        (keep (in_session session) rows)
unfolding is_acknowledged in_session
session-acknowledged session keys rows =
    All-map (λ (r : Row). text_eq r.session_id session ≡ true) _ (λ r e. rw e refl) _
      (All-keep_self (λ (r : Row). text_eq r.session_id session) rows)

removed_number :
    (session : Text) (keys : List Text) (s s' : Store) (rows : List Row) {n : ℕ}
    → s'.rows ≡ keep (λ r. not (is_acknowledged session keys r)) s.rows
    → count s ≡ n + count s'
    → keep (is_acknowledged session keys) s.rows ≡ rows
    → n ≡ length rows
unfolding count
removed_number session keys s s' rows left counted gone =
    omega (
      arith,
      length-keep-split (is_acknowledged session keys) s.rows,
      ap length left,
      ap length gone,
    )

-- Acknowledging the rows that were listed removes exactly these: as many as were listed are
-- reported, the session keeps its later rows in order, and no other session loses or gains any.
pub delete_acknowledged_listed :
    (session : Text) (limit : ℕ) (s s' : Store) (rows : List Row) {n : ℕ}
    → DistinctKeys s.rows
    → list_oldest_for_session session limit s ≡ ok rows
    → delete_acknowledged_for_session session (keys_of rows) s ≡ ok (n, s')
    → (n ≡ length rows)
      × (session_rows session s' ≡ drop limit (session_rows session s))
      × ((t : Text) → session ≢ t → session_rows t s' ≡ session_rows t s)
      × (count s ≡ n + count s')
      × (s'.lease ≡ s.lease)
delete_acknowledged_listed session limit s s' rows d listed h =
    let l = session_rows session s in
    let keys = keys_of rows in
    let listed' = list_oldest_for_session-eq session limit s listed in
    let (left, held, counted) = delete_acknowledged-left session keys s s' h in
    let distinct : DistinctKeys l = DistinctKeys-keep (in_session session) s.rows d in
    let gone : keep (is_acknowledged session keys) s.rows ≡ rows =
      acknowledged-rows session keys s.rows
      ∙ subst (λ rs. keep (mem_key (keys_of rs)) l ≡ rs) (sym listed')
          (keep-mem_key-take limit l distinct) in
    (
      removed_number session keys s s' rows left counted gone,
      ap (keep (in_session session)) left
          ∙ keep_comm (in_session session) (λ r. not (is_acknowledged session keys r)) s.rows
          ∙ keep-agree _ _ l (session-acknowledged session keys s.rows)
          ∙ subst (λ rs. keep (λ r. not (mem_key (keys_of rs) r)) l ≡ drop limit l) (sym listed')
              (keep-not-mem_key limit l distinct),
      λ t ne.
          ap (keep (in_session t)) left
          ∙ keep-keep (λ r. not (is_acknowledged session keys r)) (in_session t) s.rows
              (other-session session t keys ne),
      counted,
      held,
    )

-- While a lease runs, nobody gets another: not before its expiry, under whatever token.
pub acquire-acquire :
    (owner other : Text) (now later ms ms' : ℕ) (s s' : Store) {r : Bool × Store}
    → try_acquire_replay_lease owner now ms s ≡ ok (true, s')
    → later < now + ms
    → try_acquire_replay_lease other later ms' s' ≡ ok r
    → r ≡ (false, s')
unfolding try_acquire_replay_lease
acquire-acquire owner other now later ms ms' s s' h k g = ground arith

-- A release by a token that does not hold the lease reports false and changes nothing; the holder's
-- release reports true and frees the lease for any later caller.
pub release-acquire :
    (owner other : Text) (now ms : ℕ) (s s' : Store) {r : Bool × Store}
    → try_acquire_replay_lease owner now ms s ≡ ok (true, s')
    → release_replay_lease other s' ≡ ok r
    → ((other ≡ owner) × (r ≡ (true, record s' { lease = none })))
      ⊎ ((other ≢ owner) × (r ≡ (false, s')))
unfolding try_acquire_replay_lease release_replay_lease
release-acquire owner other now ms s s' h g = elim (Bool-cases (text_eq owner other)) [
  | inl e ↦ inl (sym (text_eq_sound owner other e), ground arith)
  | inr e ↦ inr (λ q. ground (arith, text_eq_iff owner other), ground arith)
]
