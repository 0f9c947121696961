-- ===== src/Emergency/Tokens.antt =====
-- incident-access-token.service.ts. `hex` is SHA-256 in hexadecimal; `raw` is the random token.
use opa_security_awareness_a.Common.{
  ℕ, suc, ◌+◌, Bool, false, ◌&&◌, ◌||◌, not, Option, none, some, length, any, find, keep, map, ltb,
  leb, ◌==◌, if◌then◌else◌, is_none, is_some, Result, ok, guard, or_fail, ◌>>=◌, ◌>>◌,
}
use opa_security_awareness_a.Common.Text.{Text, text_eq}
use opa_security_awareness_a.Common.Table.{Table, get, modify, add}
use opa_security_awareness_a.Emergency.State.{
  Incident, Token, Scope, Db, Error, not_found, duplicate_token, is_open,
}

abbrev pub initial_validity_ms : ℕ
initial_validity_ms = 21600000

abbrev pub absolute_lifetime_ms : ℕ
absolute_lifetime_ms = 604800000

abbrev pub renewal_window_ms : ℕ
renewal_window_ms = 3600000

pub data Resolution : Type 0 where
  unknown_token : Resolution
  valid revoked expired : ℕ → Token → Resolution

-- The row of a raw token.
unfoldable pub has_hash : Text → ℕ × Token → Bool
has_hash hash (id, t) = text_eq t.token_hash hash

unfoldable pub judge : ℕ → Option (ℕ × Token) → Resolution
judge now none = unknown_token
judge now (some (id, t)) =
    if is_some t.revoked_at
    then revoked id t
    else if leb t.expires_at now || leb t.absolute_expiry now
    then expired id t
    else valid id t

module _ (hex : Text → Text) where
  unfoldable pub issue : ℕ → Scope → Text → ℕ → Db → Result Error (ℕ × Db)
  issue incident_id scope raw now db = do
    guard (not (any (has_hash (hex raw)) db.tokens)) duplicate_token
    ok (
      db.next_token_id,
      record db {
        tokens =
            add db.next_token_id
              (record {
                incident_id = incident_id;
                token_hash = hex raw;
                scope = scope;
                expires_at = now + initial_validity_ms;
                absolute_expiry = now + absolute_lifetime_ms;
                revoked_at = none;
                last_accessed_at = none;
                access_count = 0;
              })
              db.tokens;
        next_token_id = suc db.next_token_id;
      },
    )

  unfoldable pub resolve_token : Text → ℕ → Db → Resolution
  resolve_token raw now db = judge now (find (has_hash (hex raw)) db.tokens)

abbrev pub accessed : ℕ → Token → Token
accessed now t = record t { last_accessed_at = some now; access_count = t.access_count + 1 }

abbrev pub revoke_now : ℕ → Token → Token
revoke_now now t = record t { revoked_at = some now }

-- `update` throws where there is no row.
unfoldable pub update_token : ℕ → (Token → Token) → Db → Result Error Db
update_token id f db = do
  t ← or_fail (get id db.tokens) not_found
  ok (record db { tokens = modify id f db.tokens })

unfoldable pub record_access : ℕ → ℕ → Db → Result Error Db
record_access id now db = update_token id (accessed now) db

unfoldable pub revoke : ℕ → ℕ → Db → Result Error Db
revoke id now db = update_token id (revoke_now now) db

unfoldable pub is_live_of : ℕ → ℕ × Token → Bool
is_live_of incident_id (id, t) = t.incident_id == incident_id && is_none t.revoked_at

abbrev pub revoke_if_live : ℕ → ℕ → ℕ × Token → ℕ × Token
revoke_if_live incident_id now (id, t) =
    if is_live_of incident_id (id, t) then (id, revoke_now now t) else (id, t)

-- `revokeAllForIncident`: how many tokens were live, and none of them is afterwards.
unfoldable pub revoke_all_for_incident : ℕ → ℕ → Db → ℕ × Db
revoke_all_for_incident incident_id now db = (
  length (keep (is_live_of incident_id) db.tokens),
  record db { tokens = map (revoke_if_live incident_id now) db.tokens },
)

abbrev is_open_incident : Option Incident → Bool
is_open_incident none = false
is_open_incident (some i) = is_open i.status

-- The tokens that the renewal reads.
unfoldable pub is_candidate : ℕ → Table Incident → Token → Bool
is_candidate now incidents t =
    is_none t.revoked_at
    && ltb now t.absolute_expiry
    && leb t.expires_at (now + renewal_window_ms)
    && is_open_incident (get t.incident_id incidents)

-- Never past the ceiling.
unfoldable pub next_expiry : ℕ → Token → ℕ
next_expiry now t =
    let proposed = now + initial_validity_ms in
    if ltb t.absolute_expiry proposed then t.absolute_expiry else proposed

unfoldable pub is_renewed : ℕ → Table Incident → Token → Bool
unfolding is_candidate next_expiry
is_renewed now incidents t = is_candidate now incidents t && ltb t.expires_at (next_expiry now t)

unfoldable pub renew_token : ℕ → Table Incident → ℕ × Token → ℕ × Token
renew_token now incidents (id, t) =
    if is_renewed now incidents t
    then (id, record t { expires_at = next_expiry now t })
    else (id, t)

unfoldable pub renew_eligible_tokens : ℕ → Db → ℕ × Db
unfolding is_renewed
renew_eligible_tokens now db = (
  length (keep (λ (e : ℕ × Token). is_renewed now db.incidents e.1) db.tokens),
  record db { tokens = map (renew_token now db.incidents) db.tokens },
)
