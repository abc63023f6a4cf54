-- ===== src/Db/HashChain.antt =====
-- db/hashchain.py, the append to raw_events in engine/db_adapter.py, and scripts/verify_chain.py.
-- SHA-256 is a parameter, and so is the canonical JSON: a text of the event's `fired_at`, with its own
-- offset from UTC, and of everything else that it covers, the field `body`. The table keeps `fired_at`
-- in UTC and to the millisecond. Rows stand in the order of their seq.
pub mod Appends
pub mod Tampering
mod Tests
use Prim.Native.String.{◌++◌ as str_append}
use vh26_pixel_perfect.Prelude.Int.{ℤ, pos}
use vh26_pixel_perfect.Prelude.{
  ℕ, ◌+◌, ◌*◌, ◌/◌, Bool, true, false, String, string_eq, ◌==◌, Option, some, List, [], ◌∷◌, ◌++◌,
  if◌then◌else◌,
}

-- A `datetime`: the microseconds since the epoch, and the seconds by which its zone is ahead of UTC.
-- A time without a zone is read as UTC.
pub record FiredTime : Type 0 where
  pub instant : ℕ
  pub offset : Option ℤ

-- What `_canonical_payload` covers of a decision.
pub record LedgerEvent : Type 0 where
  pub fired_at : FiredTime
  pub body : String

-- A row of raw_events; `fired_at_ms` is the stored text of `_iso`.
pub record ChainRow : Type 0 where
  pub seq : ℕ
  pub fired_at_ms : ℕ
  pub body : String
  pub prev_hash : String
  pub row_hash : String

-- "0" * 64
abbrev pub genesis_hash : String
genesis_hash = "0000000000000000000000000000000000000000000000000000000000000000"

-- What verify_chain prints: the number of rows, or the row at which it stops.
pub data Report : Type 0 where
  valid : ℕ → Report
  broken_link : ℕ → Report
  wrong_hash : ℕ → Report

-- The seq and the hash behind the last row, from those of the start.
unfoldable pub seq_and_hash_from : ℕ × String → List ChainRow → ℕ × String
seq_and_hash_from start [] = start
seq_and_hash_from start (r ∷ rows) = seq_and_hash_from (r.seq + 1, r.row_hash) rows

unfoldable pub next_seq_and_prev_hash : List ChainRow → ℕ × String
unfolding seq_and_hash_from
next_seq_and_prev_hash rows = seq_and_hash_from (1, genesis_hash) rows

unfoldable pub compute_row_hash : (String → String) → String → String → String
compute_row_hash sha256 prev_hash canonical_row_json =
    sha256 (str_append prev_hash canonical_row_json)

-- `_iso`: the stored text, in UTC
abbrev pub iso_ms : FiredTime → ℕ
iso_ms t = t.instant / 1000

-- verify_chain.py: `_row_to_event`, which reads the stored text as a time in UTC
abbrev pub stored_time : ℕ → FiredTime
stored_time ms = record { instant = ms * 1000; offset = some (pos 0) }

-- verify_chain.py: `_canonical_payload`, from the columns of a row.
unfoldable pub canonical_payload : (FiredTime → String → String) → ChainRow → String
canonical_payload canonical_json r = canonical_json (stored_time r.fired_at_ms) r.body

module _ (sha256 : String → String) (canonical_json : FiredTime → String → String) where
  -- `persist_decision`: the row that is appended for a decision.
  unfoldable pub append_event : LedgerEvent → List ChainRow → List ChainRow
  append_event e rows =
      let (seq, prev_hash) = next_seq_and_prev_hash rows in
      rows
      ++ record {
        seq = seq;
        fired_at_ms = iso_ms e.fired_at;
        body = e.body;
        prev_hash = prev_hash;
        row_hash = compute_row_hash sha256 prev_hash (canonical_json e.fired_at e.body);
      }
        ∷ []

  -- The loop of `main`, behind `n` rows.
  unfoldable pub verify_from : String → ℕ → List ChainRow → Report
  verify_from expected_prev_hash n [] = valid n
  verify_from expected_prev_hash n (r ∷ rows) =
      let rest = verify_from r.row_hash (n + 1) rows in
      if r.prev_hash == expected_prev_hash
      then if compute_row_hash sha256 r.prev_hash (canonical_payload canonical_json r) == r.row_hash
        then rest
        else wrong_hash r.seq
      else broken_link r.seq

  unfoldable pub verify_chain : List ChainRow → Report
  unfolding verify_from
  verify_chain rows = verify_from genesis_hash 0 rows
