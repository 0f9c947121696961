-- ===== src/Ingest/Verdict.antt =====
-- What an ingestion refuses, and what it accepts.
use opa_security_awareness_a.Common.{
  ℕ, ◌+◌, ◌-◌, ◌≤◌, ◌≡◌, refl, sym, ap, subst, ◌∙◌, ◌⊎◌, inl, inr, false, Option, none, some, List,
  [], ◌∷◌, ◌++◌, map, length, All, Result, ok, err, Bool-cases, arith, ◌==◌,
}
use opa_security_awareness_a.Common.Text.{Text}
use opa_security_awareness_a.Ingest.Fixes.{
  FixInput, StoredFix, Session, InsertResult, insert_fixes, record_tracked_fixes,
}
use opa_security_awareness_a.Ingest.Chain.{IsChain, fixes_of, insert_fixes-IsChain}
use opa_security_awareness_a.Ingest.Keys.{Distinct, insert_fixes-Distinct}
use opa_security_awareness_a.Ingest.Stored.{AllStored, insert_fixes-AllStored}
use opa_security_awareness_a.Ingest.Service.{
  FixDto, classify_journey_fixes, Owned, is_ended, floor_of, ingest, max_future_skew_ms,
  start_grace_ms, inserted_into,
}

-- A time that is plausible for the session, both bounds included.
abbrev pub IsTimely : ℕ → ℕ → FixDto → Type 0
IsTimely started_at now d =
    (d.fix.recorded_at ≤ now + max_future_skew_ms)
    × (started_at ≤ d.fix.recorded_at + start_grace_ms)

abbrev pub fixes_sent : List FixDto → List FixInput
fixes_sent = map (λ (d : FixDto). d.fix)

classify-accepts :
    (fixes : List FixDto) (started_at now : ℕ)
    → (classify_journey_fixes fixes (started_at - start_grace_ms) now).rejected ≡ []
    → All (IsTimely started_at now) fixes
      × ((classify_journey_fixes fixes (started_at - start_grace_ms) now).accepted
          ≡ fixes_sent fixes)
unfolding classify_journey_fixes
classify-accepts [] started_at now h = (tt, refl)
classify-accepts (d ∷ ds) started_at now h = ground (arith, classify-accepts ds started_at now)

list-cases : {A : Type 0} (l : List A) → (l ≡ []) ⊎ ((x : A) × (xs : List A) × (l ≡ x ∷ xs))
list-cases [] = inl refl
list-cases (x ∷ xs) = inr (x, xs, refl)

inserted-eq-ok :
    (o : Owned) (result : Result _ (InsertResult × Session)) {r : InsertResult} {o' : Owned}
    → inserted_into o result ≡ ok (r, o')
    → (s' : Session) × (result ≡ ok (r, s')) × (o' ≡ record o { session = s' })
inserted-eq-ok o (err e) h = cc
inserted-eq-ok o (ok (r', s')) {r} {o'} h =
    let same : r' ≡ r = ground arith in (s', ap (λ x. ok (x, s')) same, ground arith)

-- What an ingestion that succeeds did, when the stored fixes form a chain of distinct keys. The
-- session was the user's own and had not ended; each fix was plausible in time, the bounds included;
-- rows were appended and no other row changed; every fix of the batch is stored, no key is stored
-- twice, and the rows still form one chain.
pub ingest_accepted :
    (hex : Text → Text) (preimage : Text → FixInput → Option Text) (nonce : ℕ → Text)
    (received_at : Text) (user : ℕ) (fixes : List FixDto) (now : ℕ) (o : Owned) {r : InsertResult}
    {o' : Owned}
    → IsChain hex preimage none 0 o.session.fixes
    → Distinct (fixes_of o.session.fixes)
    → ingest hex preimage nonce received_at user fixes now (some o) ≡ ok (r, o')
    → (o.user_id ≡ user)
      × (is_ended o.session.status ≡ false)
      × All (IsTimely o.started_at now) fixes
      × ((rows : List StoredFix) × (o'.session.fixes ≡ o.session.fixes ++ rows)
          × (r.inserted ≡ length rows))
      × AllStored o'.session.fixes (fixes_sent fixes)
      × IsChain hex preimage none 0 o'.session.fixes
      × Distinct (fixes_of o'.session.fixes)
      × (o'.user_id ≡ o.user_id)
      × (o'.started_at ≡ o.started_at)
unfolding ingest record_tracked_fixes
ingest_accepted hex preimage nonce received_at user fixes now o {r} {o'} c d h =
    let classified = classify_journey_fixes fixes (floor_of o) now in
    elim (Bool-cases (o.user_id == user)) [
      | inr foreign ↦ ground arith
      | inl own ↦ elim (list-cases classified.rejected) [
        | inr (x, xs, e) ↦ ground arith
        | inl e ↦
            let (timely, all) = classify-accepts fixes o.started_at now e in
            let (s', wrote, same) =
              inserted-eq-ok o
                (record_tracked_fixes hex preimage nonce received_at classified.accepted
                  (some o.session))
                {r = r} {o' = o'} (ground arith) in
            let stored : insert_fixes hex preimage nonce received_at (fixes_sent fixes)
                  (some o.session)
                ≡ ok (r, s') =
              ground (arith, all) in
            let (rows, appended, chain, _, count, _) =
              insert_fixes-IsChain hex preimage nonce received_at (fixes_sent fixes) o.session c
                stored in
            let sessions : o'.session ≡ s' = ground arith in
            (
              ground arith,
              ground arith,
              timely,
              (rows, ap (λ (x : Session). x.fixes) sessions ∙ appended, count),
              subst (λ (x : Session). AllStored x.fixes (fixes_sent fixes)) (sym sessions)
                  (insert_fixes-AllStored hex preimage nonce received_at (fixes_sent fixes)
                    o.session c stored),
              subst (λ (x : Session). IsChain hex preimage none 0 x.fixes) (sym sessions) chain,
              subst (λ (x : Session). Distinct (fixes_of x.fixes)) (sym sessions)
                  (insert_fixes-Distinct hex preimage nonce received_at (fixes_sent fixes) o.session
                    c d stored),
              ground arith,
              ground arith,
            )
      ]
    ]
