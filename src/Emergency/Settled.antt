-- ===== src/Emergency/Settled.antt =====
-- Settling a walk: what a settled walk looks like, and that settling it again changes nothing.
use opa_security_awareness_a.Common.{
  ℕ, ◌≡◌, refl, sym, ap, ◌∙◌, inl, inr, true, false, Option, some, List, [], ◌∷◌, map, ok, arith,
  Bool-cases, Option-cases,
}
use opa_security_awareness_a.Common.Table.{Table, get, modify, get-modify_self, get-modify}
use opa_security_awareness_a.SafeWalk.Policy.{
  State, closed, is_settled, Escalation, Notice, Db as WalkDb, settle_escalation, cancel_notice,
  settle_rows, settle_safe_walk, open_escalation, create_audit, EndReason,
}
use opa_security_awareness_a.SafeWalk.Escalation.{is_safewalk}
use opa_security_awareness_a.Emergency.State.{Db, update_session}
use opa_security_awareness_a.Emergency.Sessions.{EndResult, end_row, end_running, end_session}

modify-again :
    {A : Type 0} (id : ℕ) (f g : A → A) (t : Table A)
    → ((a : A) → g (f a) ≡ f a)
    → modify id g (modify id f t) ≡ modify id f t
unfolding modify
modify-again id f g [] h = refl
modify-again id f g ((k, a) ∷ t) h = ground (arith, h a, modify-again id f g t h)

map-again :
    {A : Type 0} (f g : A → A) (l : List A) → ((a : A) → g (f a) ≡ f a) → map g (map f l) ≡ map f l
map-again f g [] h = refl
map-again f g (a ∷ l) h = ground (arith, h a, map-again f g l h)

settle_escalation-again :
    (s s' : State) (now now' : ℕ) (e : Escalation)
    → is_settled s ≡ true
    → settle_escalation s' now' (settle_escalation s now e) ≡ settle_escalation s now e
unfolding settle_escalation
settle_escalation-again s s' now now' e h = ground arith

cancel_notice-again :
    (id now now' : ℕ) (n : Notice)
    → cancel_notice id now' (cancel_notice id now n) ≡ cancel_notice id now n
unfolding cancel_notice
cancel_notice-again id now now' n = ground arith

-- A walk on which settling has no effect.
abbrev pub IsSettledWalk : ℕ → WalkDb → Type 0
IsSettledWalk id w =
    ((s : State) (now : ℕ)
      → (modify id (settle_escalation s now) w.escalations ≡ w.escalations)
        × (map (cancel_notice id now) w.notices ≡ w.notices))
    × (open_escalation (get id w.escalations) ≡ false)

settled_not_open :
    (id now : ℕ) (s : State) (t : Table Escalation)
    → is_settled s ≡ true
    → open_escalation (get id (modify id (settle_escalation s now) t)) ≡ false
unfolding settle_escalation
settled_not_open id now s t h = elim (Option-cases (get id t)) [
  | inl n ↦ ground (arith, get-modify id id (settle_escalation s now) t)
  | inr (e, g) ↦ ground (arith, get-modify_self id (settle_escalation s now) t g)
]

pub settle-IsSettledWalk :
    (id now : ℕ) (s : State) (actor : Option ℕ) (w : WalkDb) {w' : WalkDb}
    → is_settled s ≡ true
    → settle_safe_walk id now s actor w ≡ ok w'
    → IsSettledWalk id w'
unfolding settle_safe_walk settle_rows create_audit
settle-IsSettledWalk id now s actor w {w'} t h =
    let e : w'.escalations ≡ modify id (settle_escalation s now) w.escalations = ground arith in
    let n : w'.notices ≡ map (cancel_notice id now) w.notices = ground arith in
    (
      λ s' now'. (
        ap (modify id (settle_escalation s' now')) e
            ∙ modify-again id (settle_escalation s now) (settle_escalation s' now') w.escalations
                (λ a. settle_escalation-again s s' now now' a t)
            ∙ sym e,
        ap (map (cancel_notice id now')) n
            ∙ map-again (cancel_notice id now) (cancel_notice id now') w.notices
                (λ a. cancel_notice-again id now now' a)
            ∙ sym n,
      ),
      ap (λ x. open_escalation (get id x)) e ∙ settled_not_open id now s w.escalations t,
    )

pub settle-IsSettledWalk_same :
    (id now : ℕ) (s : State) (actor : Option ℕ) (w : WalkDb)
    → IsSettledWalk id w
    → settle_safe_walk id now s actor w ≡ ok w
unfolding settle_safe_walk settle_rows
settle-IsSettledWalk_same id now s actor w (same, shut) = ground (arith, same s now, shut)

-- Ending the session of a settled walk leaves the walk alone.
pub end_session-walk :
    (user id : ℕ) (reason : EndReason) (now : ℕ) (db : Db) {r : Option EndResult} {db' : Db}
    → IsSettledWalk id db.walks
    → end_session user id reason now db ≡ ok (r, db')
    → (db'.walks.escalations ≡ db.walks.escalations) × (db'.walks.notices ≡ db.walks.notices)
unfolding end_session end_running update_session
end_session-walk user id reason now db {r} {db'} settled h =
    let start = (update_session id (end_row reason now) db).walks in
    let same = settle-IsSettledWalk_same id now closed (some user) start settled in
    elim (Option-cases (get id db.walks.sessions)) [
      | inl n ↦ ground arith
      | inr (s, e) ↦ elim (Bool-cases (is_safewalk s.purpose)) [
        | inl walk ↦ ground (arith, same)
        | inr other ↦ ground arith
      ]
    ]

pub IsSettledWalk-same :
    (id : ℕ) (w w' : WalkDb)
    → w'.escalations ≡ w.escalations
    → w'.notices ≡ w.notices
    → IsSettledWalk id w
    → IsSettledWalk id w'
IsSettledWalk-same id w w' e n (same, shut) = (
  λ s now. (
    ap (modify id (settle_escalation s now)) e ∙ (same s now).0 ∙ sym e,
    ap (map (cancel_notice id now)) n ∙ (same s now).1 ∙ sym n,
  ),
  ap (λ x. open_escalation (get id x)) e ∙ shut,
)
