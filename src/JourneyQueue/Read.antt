-- ===== src/JourneyQueue/Read.antt =====
-- The reading methods of journey-queue-store.ts: mapRow, listOldest, listOldestForSession,
-- nextReplaySession.
use opa_security_awareness_a.Common.{
  ℕ, Bool, true, ◌||◌, not, Option, none, some, List, [], ◌∷◌, length, take, keep, any, find, ltb,
  ◌==◌, if◌then◌else◌, Result, ok, guard, ◌>>=◌, ◌>>◌,
}
use opa_security_awareness_a.Common.Text.{Text, codes, text_eq}
use opa_security_awareness_a.JourneyQueue.Store.{
  Row, Store, Error, limit_invalid, session_id_empty, unsupported_source, is_positive_safe_integer,
}

abbrev foreground : Text
foreground = codes "foreground"

abbrev background : Text
background = codes "background"

abbrev manual : Text
manual = codes "manual"

-- A stored row is handed on as it is, or refused for its source.
unfoldable pub map_row : Row → Result Error Row
map_row r = do
  guard (text_eq r.source foreground || text_eq r.source background || text_eq r.source manual)
      unsupported_source
  ok r

-- `rows.map((row) => this.mapRow(row))`: the first refusal is thrown.
unfoldable pub map_rows : List Row → Result Error (List Row)
unfolding map_row
map_rows [] = ok []
map_rows (r ∷ rs) = do r' ← map_row r; rs' ← map_rows rs; ok (r' ∷ rs')

unfoldable pub list_oldest : ℕ → Store → Result Error (List Row)
unfolding map_rows
list_oldest limit s = do
  guard (is_positive_safe_integer limit) limit_invalid
  map_rows (take limit s.rows)

unfoldable pub in_session : Text → Row → Bool
in_session session r = text_eq r.session_id session

unfoldable pub list_oldest_for_session : Text → ℕ → Store → Result Error (List Row)
unfolding map_rows
list_oldest_for_session session limit s = do
  guard (ltb 0 (length session)) session_id_empty
  guard (is_positive_safe_integer limit) limit_invalid
  map_rows (take limit (keep (in_session session) s.rows))

unfoldable pub is_skipped : List Text → Text → Bool
is_skipped skipped session = any (text_eq session) skipped

abbrev pub session_of : Option Row → Option Text
session_of none = none
session_of (some r) = some r.session_id

-- The oldest row whose session is not skipped; the empty skip set has a statement of its own.
unfoldable pub oldest_eligible : List Text → Store → Option Text
unfolding is_skipped
oldest_eligible skipped s =
    if length skipped == 0
    then session_of (find (λ r. true) s.rows)
    else session_of (find (λ r. not (is_skipped skipped r.session_id)) s.rows)

-- The row of the current session, if the caller has one and the queue holds one.
unfoldable pub active_row : Option Text → Store → Option Row
unfolding in_session
active_row none s = none
active_row (some current) s =
    if ltb 0 (length current) then find (in_session current) s.rows else none

unfoldable pub next_replay_session : Option Text → List Text → Store → Option Text
unfolding active_row oldest_eligible
next_replay_session current skipped s = elim (active_row current s) [
  | some r ↦ some r.session_id
  | none ↦ oldest_eligible skipped s
]
