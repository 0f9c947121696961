-- ===== src/Ingest/Envelope.antt =====
-- The chain envelope of apps/api/src/modules/journey/canonical-chain.ts, with canonicalTimestamp of
-- canonical-fix.ts beside it.
use opa_security_awareness_a.Common.{
  ℕ, Bool, ◌&&◌, ◌||◌, not, Option, none, some, ◌++◌, length, any, leb, ◌==◌, Result, ok, guard,
  or_fail, ◌>>=◌, ◌>>◌,
}
use opa_security_awareness_a.Common.Text.{Text, codes, decimal}

pub data Error : Type 0 where
  bad_digest bad_sequence reserved_delimiter bad_timestamp bad_payload session_not_found
        empty_batch :
      Error

unfoldable pub is_hex_char : ℕ → Bool
is_hex_char c = (leb b'0' c && leb c b'9') || (leb b'a' c && leb c b'f')

-- /^[0-9a-f]{64}$/
unfoldable pub is_digest : Text → Bool
unfolding is_hex_char
is_digest t = length t == 64 && not (any (λ c. not (is_hex_char c)) t)

unfoldable pub canonical_digest : Text → Result Error Text
unfolding is_digest
canonical_digest t = do guard (is_digest t) bad_digest; ok t

-- Number.isSafeInteger; a sequence of the model is not negative.
unfoldable pub canonical_sequence : ℕ → Result Error Text
canonical_sequence n = do guard (leb n 9007199254740991) bad_sequence; ok (decimal n)

unfoldable pub assert_no_delimiter : Text → Result Error (Unit {0})
assert_no_delimiter t = guard (not (any (λ c. c == b'|' || c == b'=') t)) reserved_delimiter

unfoldable pub canonical_previous : Option Text → Result Error Text
unfolding canonical_digest
canonical_previous none = ok (codes "null")
canonical_previous (some h) = canonical_digest h

-- `Date | string`. A Date is the text of its toISOString, none where it is invalid; a string comes
-- with the Date that `new Date` reads from it.
pub data Timestamp : Type 0 where
  date : Option Text → Timestamp
  string : Text → Option Text → Timestamp

abbrev to_date : Timestamp → Option Text
to_date (date d) = d
to_date (string text d) = d

unfoldable pub canonical_timestamp : Timestamp → Result Error Text
canonical_timestamp t = or_fail (to_date t) bad_timestamp

-- The bytes that the chain hash covers.
unfoldable pub canonical_chain_envelope : Option Text → Text → ℕ → Timestamp → Result Error Text
unfolding canonical_previous canonical_digest canonical_sequence canonical_timestamp
    assert_no_delimiter
canonical_chain_envelope previous payload_hash sequence received_at = do
  prev ← canonical_previous previous
  payload ← canonical_digest payload_hash
  seq ← canonical_sequence sequence
  rcv ← canonical_timestamp received_at
  assert_no_delimiter prev
  assert_no_delimiter payload
  assert_no_delimiter seq
  assert_no_delimiter rcv
  ok (
      codes "v1|prev="
      ++ prev
      ++ codes "|payload="
      ++ payload
      ++ codes "|seq="
      ++ seq
      ++ codes "|rcv="
      ++ rcv)
