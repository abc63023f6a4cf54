-- ===== src/Outbox/Queue.antt =====
-- outbox/worker.py: the rows of the queue, their leases and the transitions of their status. Seconds
-- are counted in milliseconds.
pub mod Ids
pub mod Exclusion
pub mod Trial
mod Tests
use vh26_pixel_perfect.Prelude.{
  ℕ, zero, suc, ◌+◌, ◌*◌, ◌^◌, min, Bool, true, false, ◌&&◌, ◌||◌, not, String, string_eq, ◌==◌,
  Option, none, some, List, [], ◌∷◌, ◌++◌, map, ltb, leb, nat_beq, any, keep_if, take,
  if◌then◌else◌,
}
use vh26_pixel_perfect.Prelude.Int.{ℤ, ltb_ℤ}
use vh26_pixel_perfect.Prelude.Dict
use vh26_pixel_perfect.Prelude.Dict.{Dict}
use vh26_pixel_perfect.Outbox.FailurePolicy.{Reason, parked}
use vh26_pixel_perfect.Outbox.Tables.{OutboxRow, pending, sent, dead, is_pending}

pub record Settings : Type 0 where
  pub max_attempts : ℕ
  pub lease : ℕ
  pub batch_size : ℕ

-- WHERE outbox_id = ?
unfoldable pub update_row : ℕ → (OutboxRow → OutboxRow) → List OutboxRow → List OutboxRow
update_row id change = map (λ r. if nat_beq r.outbox_id id then change r else r)

-- locked_by = NULL, locked_until = NULL
abbrev pub unlocked : OutboxRow → OutboxRow
unlocked r = record r { locked_by = none; locked_until = none }

abbrev pub coalesce : Option String → Option String → Option String
coalesce none old = old
coalesce (some ref) old = some ref

abbrev pub as_sent : Option String → ℕ → OutboxRow → OutboxRow
as_sent ref now r = record (unlocked r) {
  status = sent;
  sent_at = some now;
  external_ref = coalesce ref r.external_ref;
}

unfoldable pub mark_sent : ℕ → Option String → ℕ → List OutboxRow → List OutboxRow
unfolding update_row
mark_sent id ref now = update_row id (as_sent ref now)

-- Before the breaker opens there is no probe: the row is tried again after a second.
abbrev pub retry_at : Option ℕ → ℕ → ℕ
retry_at none now = now + 1000
retry_at (some t) now = t

abbrev pub as_parked : Option ℕ → Reason → ℕ → OutboxRow → OutboxRow
as_parked next_probe_at reason now r = record (unlocked r) {
  next_attempt_at = retry_at next_probe_at now;
  last_error = some (parked reason);
}

unfoldable pub park : ℕ → Option ℕ → Reason → ℕ → List OutboxRow → List OutboxRow
unfolding update_row
park id next_probe_at reason now = update_row id (as_parked next_probe_at reason now)

unfoldable pub exponential_backoff : ℕ → ℕ
exponential_backoff attempts = min (2 ^ attempts) 300 * 1000

-- A hint of 0 is no hint.
unfoldable pub retry_delay : Option ℕ → ℕ → ℕ
retry_delay none attempts = exponential_backoff attempts
retry_delay (some hint) attempts = if nat_beq hint 0 then exponential_backoff attempts else hint

abbrev pub as_retried : Settings → ℕ → Reason → Option ℕ → ℕ → OutboxRow → OutboxRow
as_retried settings attempts reason retry_after now r =
    let new_attempts = attempts + 1 in
    record (unlocked r) {
      attempts = new_attempts;
      status = if leb settings.max_attempts new_attempts then dead else pending;
      next_attempt_at = now + retry_delay retry_after new_attempts;
      last_error = some reason;
    }

unfoldable pub retry_later :
    Settings → ℕ → ℕ → Reason → Option ℕ → ℕ → List OutboxRow → List OutboxRow
unfolding update_row
retry_later settings id attempts reason retry_after now =
    update_row id (as_retried settings attempts reason retry_after now)

abbrev pub as_dead : Reason → OutboxRow → OutboxRow
as_dead reason r = record (unlocked r) { status = dead; last_error = some reason }

unfoldable pub dead_letter : ℕ → Reason → List OutboxRow → List OutboxRow
unfolding update_row
dead_letter id reason = update_row id (as_dead reason)

-- ORDER BY priority ASC, outbox_id ASC
unfoldable pub row_before : OutboxRow → OutboxRow → Bool
row_before a b =
    ltb_ℤ a.priority b.priority || not (ltb_ℤ b.priority a.priority) && ltb a.outbox_id b.outbox_id

unfoldable pub insert_row : OutboxRow → List OutboxRow → List OutboxRow
insert_row r [] = r ∷ []
insert_row r (s ∷ rows) = if row_before r s then r ∷ s ∷ rows else s ∷ insert_row r rows

unfoldable pub in_order : List OutboxRow → List OutboxRow
unfolding insert_row
in_order [] = []
in_order (r ∷ rows) = insert_row r (in_order rows)

-- locked_until IS NULL OR locked_until <= now
unfoldable pub is_free : Option ℕ → ℕ → Bool
is_free none now = true
is_free (some t) now = leb t now

unfoldable pub is_eligible : (String → Bool) → ℕ → OutboxRow → Bool
unfolding is_free
is_eligible available now r =
    is_pending r.status
    && (leb r.next_attempt_at now && (available r.channel && is_free r.locked_until now))

unfoldable pub has_id : ℕ → List OutboxRow → Bool
has_id id = any (λ r. nat_beq r.outbox_id id)

unfoldable pub leased : String → ℕ → OutboxRow → OutboxRow
leased worker until r = record r { locked_by = some worker; locked_until = some until }

unfoldable pub lease_batch : String → ℕ → List OutboxRow → OutboxRow → OutboxRow
unfolding leased
lease_batch worker until batch r = if has_id r.outbox_id batch then leased worker until r else r

unfoldable pub same_worker : Option String → String → Bool
same_worker none worker = false
same_worker (some w) worker = w == worker

unfoldable pub same_lease : Option ℕ → ℕ → Bool
same_lease none until = false
same_lease (some t) until = nat_beq t until

unfoldable pub is_held : String → ℕ → OutboxRow → Bool
unfolding same_worker same_lease
is_held worker until r =
    is_pending r.status && (same_worker r.locked_by worker && same_lease r.locked_until until)

unfoldable pub batch_of : Settings → (String → Bool) → ℕ → List OutboxRow → List OutboxRow
batch_of settings available now rows =
    take settings.batch_size (in_order (keep_if (is_eligible available now) rows))

-- `_claim`: the rows after the UPDATE, and the rows that the SELECT returns.
unfoldable pub claim :
    Settings → String → (String → Bool) → ℕ → List OutboxRow → List OutboxRow × List OutboxRow
claim settings worker available now rows =
    let until = now + settings.lease in
    let rows' = map (lease_batch worker until (batch_of settings available now rows)) rows in
    (rows', in_order (keep_if (is_held worker until) rows'))

-- The allowance of a channel on trial: `counts` has an entry for each channel that is HALF_OPEN.
unfoldable pub trim : ℕ → Dict String ℕ → List OutboxRow → List OutboxRow
trim allowance counts [] = []
trim allowance counts (r ∷ rows) = elim (Dict.get r.channel counts) [
  | none ↦ r ∷ trim allowance counts rows
  | some n ↦ elim (leb allowance n) [
    | true ↦ trim allowance counts rows
    | false ↦ r ∷ trim allowance (Dict.put r.channel (n + 1) counts) rows
  ]
]
