-- ===== src/System/Delivered.antt =====
-- No captured fix is lost between the queue and the server, and none is stored twice.
use opa_security_awareness_a.Common.{
  ◌≡◌, refl, sym, ap, subst, ◌∙◌, ◌⊎◌, inl, inr, Bool, true, ◌||◌, none, List, [], ◌∷◌, ◌++◌, take,
  map, any, All, All-map, arith, Bool-cases, Result-cases,
}
use opa_security_awareness_a.Common.Text.{Text, text_eq, text_eq_sound}
use opa_security_awareness_a.JourneyQueue.Store.{Row, Store, TrackedFix, has_key}
use opa_security_awareness_a.JourneyQueue.Valid.{DistinctKeys}
use opa_security_awareness_a.JourneyQueue.Drain.{session_rows}
use opa_security_awareness_a.JourneyQueue.Replay.{HttpError, max_batch, lease_ms, to_payload}
use opa_security_awareness_a.Ingest.Fixes.{StoredFix, is_stored}
use opa_security_awareness_a.Ingest.Chain.{IsChain, fixes_of}
use opa_security_awareness_a.Ingest.Keys.{Distinct}
use opa_security_awareness_a.Ingest.Service.{Owned}
use opa_security_awareness_a.Ingest.Stored.{AllStored}
use opa_security_awareness_a.Ingest.Verdict.{ingest_accepted, fixes_sent}
use opa_security_awareness_a.System.Network.{
  Fate, request_lost, response_lost, delivered, World, Request, to_dto, arrives, state_after,
  answer, server_after, batch_of, post_to, Runs, start, captures, replays, skips, throws, ends,
}
use opa_security_awareness_a.System.Captured.{captures-kept}
use opa_security_awareness_a.System.Keys.{acquire-kept, replay-kept, replay-skips, replay-throws}

-- Whether a session stores a fix of this key.
unfoldable pub stores : Text → Owned → Bool
stores k server = any (λ (s : StoredFix). text_eq k s.fix.idempotency_key) server.session.fixes

-- A session as the server keeps it.
abbrev pub IsSound : World → Owned → Type 0
IsSound w server =
    IsChain w.hex w.preimage none 0 server.session.fixes × Distinct (fixes_of server.session.fixes)

any-append :
    (p : StoredFix → Bool) (xs ys : List StoredFix) → any p (xs ++ ys) ≡ any p xs || any p ys
any-append p [] ys = refl
any-append p (x ∷ xs) ys = ground (arith, any-append p xs ys)

arrives-IsSound :
    (w : World) (q : Request) (server : Owned) (fixes : List TrackedFix)
    → IsSound w server
    → IsSound w (state_after server (arrives w q server fixes))
arrives-IsSound w q server fixes (c, d) = elim (Result-cases (arrives w q server fixes)) [
  | inr (x, e) ↦ rw e (c, d)
  | inl ((r, server'), e) ↦
      let (_, _, _, _, _, chain, distinct, _, _) =
        ingest_accepted w.hex w.preimage q.nonce q.received_at q.user
          (map (to_dto w.read_time) fixes) q.now server c d e in
      rw e (chain, distinct)
]

arrives-stores :
    (w : World) (q : Request) (server : Owned) (fixes : List TrackedFix) (k : Text)
    → IsSound w server
    → stores k server ≡ true
    → stores k (state_after server (arrives w q server fixes)) ≡ true
unfolding stores
arrives-stores w q server fixes k (c, d) h = elim (Result-cases (arrives w q server fixes)) [
  | inr (x, e) ↦ rw e h
  | inl ((r, server'), e) ↦
      let (_, _, _, (rows, appended, _), _, _, _, _, _) =
        ingest_accepted w.hex w.preimage q.nonce q.received_at q.user
          (map (to_dto w.read_time) fixes) q.now server c d e in
      rw e (
        ground (
          arith,
          ap (any (λ (s : StoredFix). text_eq k s.fix.idempotency_key)) appended,
          any-append (λ (s : StoredFix). text_eq k s.fix.idempotency_key) server.session.fixes rows,
          h,
        ))
]

sent-stored :
    (w : World) (server : Owned) (k : Text) (rows : List Row)
    → AllStored server.session.fixes (fixes_sent (map (to_dto w.read_time) (map to_payload rows)))
    → has_key k rows ≡ true
    → stores k server ≡ true
unfolding stores has_key is_stored
sent-stored w server k [] a h = cc
sent-stored w server k (r ∷ rows) a h = elim (Bool-cases (text_eq r.idempotency_key k)) [
  | inl e ↦
      ap (λ x. any (λ (s : StoredFix). text_eq x s.fix.idempotency_key) server.session.fixes)
        (sym (text_eq_sound r.idempotency_key k e))
      ∙ a.0
  | inr e ↦ sent-stored w server k rows a.1 (ground arith)
]

Fate-cases :
    (f : Fate)
    → ((e : HttpError) × (f ≡ request_lost e))
      ⊎ ((e : HttpError) × (f ≡ response_lost e))
      ⊎ (f ≡ delivered)
Fate-cases (request_lost e) = inl (e, refl)
Fate-cases (response_lost e) = inr (inl (e, refl))
Fate-cases delivered = inr (inr refl)

after-IsSound :
    (w : World) (q : Request) (server : Owned) (fixes : List TrackedFix)
    → IsSound w server
    → IsSound w (server_after w q server fixes)
unfolding server_after
after-IsSound w q server fixes s = elim (Fate-cases q.fate) [
  | inl (e, f) ↦ rw f s
  | inr (inl (e, f)) ↦ rw f (arrives-IsSound w q server fixes s)
  | inr (inr f) ↦ rw f (arrives-IsSound w q server fixes s)
]

after-stores :
    (w : World) (q : Request) (server : Owned) (fixes : List TrackedFix) (k : Text)
    → IsSound w server
    → stores k server ≡ true
    → stores k (server_after w q server fixes) ≡ true
unfolding server_after
after-stores w q server fixes k s h = elim (Fate-cases q.fate) [
  | inl (e, f) ↦ rw f h
  | inr (inl (e, f)) ↦ rw f (arrives-stores w q server fixes k s h)
  | inr (inr f) ↦ rw f (arrives-stores w q server fixes k s h)
]

-- A batch that was answered with success is stored.
after-taken :
    (w : World) (q : Request) (server : Owned) (k : Text) (rows : List Row)
    → IsSound w server
    → answer w q server (map to_payload rows) ≡ none
    → has_key k rows ≡ true
    → stores k (server_after w q server (map to_payload rows)) ≡ true
unfolding server_after answer
after-taken w q server k rows s h e = elim (Fate-cases q.fate) [
  | inl (x, f) ↦ ground arith
  | inr (inl (x, f)) ↦ ground arith
  | inr (inr f) ↦ elim (Result-cases (arrives w q server (map to_payload rows))) [
    | inr (x, g) ↦ ground arith
    | inl ((r, server'), g) ↦
        let (_, _, _, _, all, _, _, _, _) =
          ingest_accepted w.hex w.preimage q.nonce q.received_at q.user
            (map (to_dto w.read_time) (map to_payload rows)) q.now server s.0 s.1 g in
        rw (f, g) (sent-stored w server' k rows all e)
  ]
]

-- A captured key is in the queue or on the server.
abbrev pub IsKept : Store → Owned → Text → Type 0
IsKept s server k = (has_key k s.rows ≡ true) ⊎ (stores k server ≡ true)

abbrev Invariant : World → List Text → Store → Owned → Type 0
Invariant w keys s server = All (IsKept s server) keys × DistinctKeys s.rows × IsSound w server

Invariant-rows :
    (w : World) (keys : List Text) (s s' : Store) (server : Owned)
    → s'.rows ≡ s.rows
    → Invariant w keys s server
    → Invariant w keys s' server
Invariant-rows w keys s s' server e (kept, d, sound) = (
  subst (λ rs. All (λ k. (has_key k rs ≡ true) ⊎ (stores k server ≡ true)) keys) (sym e) kept,
  subst DistinctKeys (sym e) d,
  sound,
)

Runs-Invariant :
    (w : World) (session : Text) (s₀ : Store) (server₀ : Owned) (keys : List Text) (s : Store)
    (server : Owned)
    → DistinctKeys s₀.rows
    → IsSound w server₀
    → Runs w session s₀ server₀ keys s server
    → Invariant w keys s server
unfolding stores
Runs-Invariant w session s₀ server₀ _ _ _ d₀ i₀ start = (tt, d₀, i₀)
Runs-Invariant w session s₀ server₀ _ _ _ d₀ i₀ (captures keys s server keys' s' rs c) =
    let (kept, d, sound) = Runs-Invariant w session s₀ server₀ keys s server d₀ i₀ rs in
    let (d', kept') = captures-kept (λ k. stores k server ≡ true) keys s keys' s' d kept c in
    (kept', d', sound)
Runs-Invariant w session s₀ server₀ _ _ _ d₀ i₀
      (replays keys s server q owner at mid others keys' o s' rs got c h z) =
    let (kept, d, sound) = Runs-Invariant w session s₀ server₀ keys s server d₀ i₀ rs in
    let same = acquire-kept owner at lease_ms s {b = true} {s' = mid} got in
    let (d', flying) =
      captures-kept (λ k. stores k server ≡ true) keys mid keys' (others mid)
        (subst DistinctKeys (sym same) d)
        (subst (λ t. All (λ k. (has_key k t ≡ true) ⊎ (stores k server ≡ true)) keys) (sym same)
          kept)
        c in
    let (d'', left) =
      replay-kept (post_to w q server) others session owner at s mid {o = o} {s' = s'} got h z d' in
    (
      All-map (IsKept (others mid) server)
          (IsKept s' (server_after w q server (batch_of session s)))
          (λ k a. elim a [
            | inr stored ↦ inr (after-stores w q server (batch_of session s) k sound stored)
            | inl queued ↦ elim (left k queued) [
              | inl still ↦ inl still
              | inr (accepted, taken) ↦ inr (
                  after-taken w q server k (take max_batch (session_rows session s)) sound accepted
                    taken)
            ]
          ])
          keys' flying,
      d'',
      after-IsSound w q server (batch_of session s) sound,
    )
Runs-Invariant w session s₀ server₀ _ _ _ d₀ i₀
      (skips keys s server q others owner at o s' rs h z) =
    let before = Runs-Invariant w session s₀ server₀ keys s server d₀ i₀ rs in
    Invariant-rows w keys s s' server
      (replay-skips (post_to w q server) others session owner at s {o = o} {s' = s'} h z) before
Runs-Invariant w session s₀ server₀ _ _ _ d₀ i₀ (throws keys s server q others owner at e s' rs h) =
    let before = Runs-Invariant w session s₀ server₀ keys s server d₀ i₀ rs in
    Invariant-rows w keys s s' server
      (replay-throws (post_to w q server) others session owner at s {x = e} {s' = s'} h) before
Runs-Invariant w session s₀ server₀ _ _ _ d₀ i₀ (ends keys s server rs) =
    Runs-Invariant w session s₀ server₀ keys s server d₀ i₀ rs

-- Over a network that can lose any request or any answer, with captures of single fixes and of
-- batches that drop nothing, between the replays and while a request is in flight, with replays of
-- one session that post, find nothing to post or throw, and wherever the server's session ends: each
-- captured key is in the phone's queue or stored on the server; no key is stored twice; and the
-- server's rows form one chain. The queue starts with distinct keys and the server with such a chain;
-- while a request is in flight nothing but captures writes to the queue.
pub nothing_lost :
    (w : World) (session : Text) (s₀ : Store) (server₀ : Owned) (keys : List Text) (s : Store)
    (server : Owned)
    → DistinctKeys s₀.rows
    → IsSound w server₀
    → Runs w session s₀ server₀ keys s server
    → All (IsKept s server) keys
      × IsChain w.hex w.preimage none 0 server.session.fixes
      × Distinct (fixes_of server.session.fixes)
nothing_lost w session s₀ server₀ keys s server d i rs =
    let (kept, _, (chain, distinct)) = Runs-Invariant w session s₀ server₀ keys s server d i rs in
    (kept, chain, distinct)
