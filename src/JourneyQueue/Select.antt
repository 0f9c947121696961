-- ===== src/JourneyQueue/Select.antt =====
-- Which session the next replay cycle drains (`nextReplaySession`).
use opa_security_awareness_a.Common.{
  ◌<◌, ◌≡◌, refl, sym, ap, ◌∙◌, ◌⊎◌, inl, inr, Bool, true, false, Option, none, some, List, [], ◌∷◌,
  ◌++◌, length, arith, Bool-cases, Option-cases, All, find, find-some, find-none, All-map, ltb, not,
  subst,
}
use opa_security_awareness_a.Common.Text.{Text, text_eq_sound, text_eq_refl}
use opa_security_awareness_a.JourneyQueue.Store.{Row, Store}
use opa_security_awareness_a.JourneyQueue.Read.{
  in_session, is_skipped, session_of, oldest_eligible, active_row, next_replay_session,
}

-- Whether the caller names a current session that has rows in the queue.
abbrev pub IsLive : Option Text → Store → Type 0
IsLive none s = ⊥
IsLive (some c) s =
    (0 < length c)
    × (pre : List Row) × (r : Row) × (post : List Row) × (s.rows ≡ pre ++ r ∷ post)
    × (r.session_id ≡ c)

not-In-session : (c : Text) (r : Row) → r.session_id ≡ c → in_session c r ≡ true
unfolding in_session
not-In-session c r e = rw e (text_eq_refl c)

find-in_session :
    (c : Text) (pre : List Row) (r : Row) (post : List Row)
    → r.session_id ≡ c
    → (q : Row) × (find (in_session c) (pre ++ r ∷ post) ≡ some q)
find-in_session c [] r post e = (r, rw (not-In-session c r e))
find-in_session c (p ∷ pre) r post e = elim (Bool-cases (in_session c p)) [
  | inl h ↦ (p, rw h)
  | inr h ↦ rw h (find-in_session c pre r post e)
]

active_row-session :
    (current : Option Text) (s : Store) {r : Row}
    → active_row current s ≡ some r
    → current ≡ some r.session_id
unfolding active_row in_session
active_row-session none s h = cc
active_row-session (some c) s {r} h = elim (Bool-cases (ltb 0 (length c))) [
  | inl e ↦
      let (_, _, _, hit, _) = find-some (in_session c) s.rows {x = r} (ground arith) in
      ap some (sym (text_eq_sound r.session_id c hit))
  | inr e ↦ ground arith
]

active_row-IsLive :
    (c : Text) (s : Store) → IsLive (some c) s → (r : Row) × (active_row (some c) s ≡ some r)
unfolding active_row
active_row-IsLive c s (long, pre, r, post, split, e) =
    let (q, found) = find-in_session c pre r post e in
    (q, rw (ltb-true c long) (ap (find (in_session c)) split ∙ found))
  where
    ltb-true : (c : Text) → 0 < length c → ltb 0 (length c) ≡ true
    ltb-true c h = ground arith

-- A live session goes first, and no skip set holds it back.
pub next_replay_session_live :
    (c : Text) (skipped : List Text) (s : Store)
    → IsLive (some c) s
    → next_replay_session (some c) skipped s ≡ some c
unfolding next_replay_session
next_replay_session_live c skipped s live =
    let (r, found) = active_row-IsLive c s live in
    rw (found, next_replay_session) (sym (active_row-session (some c) s found))

is_skipped-nil : (session : Text) → is_skipped [] session ≡ false
unfolding is_skipped
is_skipped-nil session = refl

oldest_eligible-find :
    (skipped : List Text) (s : Store)
    → oldest_eligible skipped s
      ≡ session_of (find (λ r. not (is_skipped skipped r.session_id)) s.rows)
unfolding oldest_eligible
oldest_eligible-find [] s = refl
oldest_eligible-find (x ∷ xs) s = ground arith

-- The first row whose session is not skipped.
abbrev pub OldestEligible : List Text → Text → List Row → Type 0
OldestEligible skipped session rows =
    (pre : List Row) × (r : Row) × (post : List Row) × (rows ≡ pre ++ r ∷ post)
    × (r.session_id ≡ session)
    × (is_skipped skipped session ≡ false)
    × All (λ q. is_skipped skipped q.session_id ≡ true) pre

not-false : (b : Bool) → not b ≡ false → b ≡ true
not-false true h = refl
not-false false h = cc

not-true : (b : Bool) → not b ≡ true → b ≡ false
not-true true h = cc
not-true false h = refl

oldest_eligible-some :
    (skipped : List Text) (s : Store) {x : Text}
    → oldest_eligible skipped s ≡ some x
    → OldestEligible skipped x s.rows
oldest_eligible-some skipped s {x} h =
    let test : Row → Bool = λ r. not (is_skipped skipped r.session_id) in
    elim (Option-cases (find test s.rows)) [
      | inl e ↦ cc (oldest_eligible-find skipped s, ap session_of e)
      | inr (r, e) ↦
          let (pre, post, split, hit, before) = find-some test s.rows {x = r} e in
          let same : r.session_id ≡ x = cc (oldest_eligible-find skipped s, ap session_of e) in
          (
            pre,
            r,
            post,
            split,
            same,
            subst (λ t. is_skipped skipped t ≡ false) same (not-true _ hit),
            All-map _ _ (λ q. not-false (is_skipped skipped q.session_id)) pre before,
          )
    ]

oldest_eligible-none :
    (skipped : List Text) (s : Store)
    → oldest_eligible skipped s ≡ none
    → All (λ q. is_skipped skipped q.session_id ≡ true) s.rows
oldest_eligible-none skipped s h =
    let test : Row → Bool = λ r. not (is_skipped skipped r.session_id) in
    elim (Option-cases (find test s.rows)) [
      | inl e ↦
          All-map _ _ (λ q. not-false (is_skipped skipped q.session_id)) s.rows
            (find-none test s.rows e)
      | inr (r, e) ↦ cc (oldest_eligible-find skipped s, ap session_of e)
    ]

-- What the selector answers: the current session, if it holds a row; else the session of the oldest
-- row that is not skipped; and nothing only if every row of the queue is skipped.
pub next_replay_session_choice :
    (current : Option Text) (skipped : List Text) (s : Store)
    → ((x : Text) × (next_replay_session current skipped s ≡ some x)
        × ((current ≡ some x) ⊎ OldestEligible skipped x s.rows))
      ⊎ ((next_replay_session current skipped s ≡ none)
          × All (λ q. is_skipped skipped q.session_id ≡ true) s.rows)
unfolding next_replay_session
next_replay_session_choice current skipped s = elim (Option-cases (active_row current s)) [
  | inr (r, e) ↦ inl (r.session_id, ground arith, inl (active_row-session current s e))
  | inl e ↦ elim (Option-cases (oldest_eligible skipped s)) [
    | inr (x, f) ↦ inl (x, ground arith, inr (oldest_eligible-some skipped s f))
    | inl f ↦ inr (ground arith, oldest_eligible-none skipped s f)
  ]
]
