-- ===== src/Outbox/Queue/Tests.antt =====
-- Tests of the queue of outbox/worker.py.
use vh26_pixel_perfect.Prelude.{
  ℕ, ◌≡◌, ◌≢◌, refl, Bool, true, false, String, string_eq, eq_iff, none, some, List, [], ◌∷◌, map,
  arith,
}
use vh26_pixel_perfect.Prelude.Int.{pos}
use vh26_pixel_perfect.Prelude.Dict
use vh26_pixel_perfect.Prelude.Dict.{Dict}
use vh26_pixel_perfect.Outbox.Tables.{OutboxRow, pending, is_pending}
use vh26_pixel_perfect.Outbox.Queue.{
  Settings, claim, trim, has_id, is_eligible, is_free, lease_batch, leased, is_held, batch_of,
  same_worker, same_lease, in_order, insert_row, row_before,
}
use vh26_pixel_perfect.Outbox.Queue.Ids.{AreDistinct}
use vh26_pixel_perfect.Outbox.Queue.Exclusion.{claim_exclusive}
use vh26_pixel_perfect.Outbox.Queue.Trial.{quota, of_channel, of_channel-trim}

abbrev row : ℕ → String → ℕ → OutboxRow
row id channel priority = record {
  outbox_id = id;
  incident_id = "incident";
  channel = channel;
  action = "create";
  payload = record { kind = none; delivered_via_fallback = none; failover_from = none; body = "" };
  status = pending;
  attempts = 0;
  next_attempt_at = 0;
  last_error = none;
  external_ref = none;
  priority = pos priority;
  locked_by = none;
  locked_until = none;
  superseded_by = none;
  failover_of = none;
  origin_channel = some channel;
  created_at = 0;
  sent_at = none;
}

abbrev rows : List OutboxRow
rows = row 1 "slack" 2 ∷ row 2 "email" 1 ∷ row 3 "slack" 0 ∷ []

abbrev settings : Settings
settings = record { max_attempts = 5; lease = 30000; batch_size = 2 }

abbrev everywhere : String → Bool
everywhere channel = true

abbrev ids : List OutboxRow → List ℕ
ids = map (λ r. r.outbox_id)

-- The most urgent rows are claimed first.
claimed_first : ids (claim settings "a" everywhere 10 rows).1 ≡ 3 ∷ 2 ∷ []
unfolding claim batch_of in_order insert_row row_before is_eligible is_free has_id leased
    lease_batch is_held same_worker same_lease is_pending
claimed_first = refl

other_worker : ◌≢◌ {A = String} "a" "b"
other_worker e = let h : false ≡ true = (eq_iff "a" "b").1 e in cc

distinct_ids : AreDistinct rows
unfolding has_id
distinct_ids = (refl, (refl, (refl, tt)))

three_claimed : has_id 3 (claim settings "a" everywhere 10 rows).1 ≡ true
unfolding claim batch_of in_order insert_row row_before is_eligible is_free has_id leased
    lease_batch is_held same_worker same_lease is_pending
three_claimed = refl

claim_exclusive_example :
    has_id 3 (claim settings "b" everywhere 20 (claim settings "a" everywhere 10 rows).0).1 ≡ false
claim_exclusive_example =
    claim_exclusive settings "a" "b" everywhere everywhere 10 20 3 rows distinct_ids other_worker
      (omega arith) three_claimed

abbrev on_trial : Dict String ℕ
on_trial = ("slack", 0) ∷ []

of_channel-trim_example :
    of_channel "slack" (trim 1 on_trial rows)
    ≡ quota 1 (Dict.get "slack" on_trial) (of_channel "slack" rows)
of_channel-trim_example = of_channel-trim 1 on_trial "slack" rows
