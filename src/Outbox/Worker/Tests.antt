-- ===== src/Outbox/Worker/Tests.antt =====
-- Tests of outbox/worker.py.
use vh26_pixel_perfect.Prelude.{◌≡◌, ◌⊎◌, refl, none, some, [], ◌∷◌}
use vh26_pixel_perfect.Prelude.Int.{pos}
use vh26_pixel_perfect.Outbox.FailurePolicy.{Failure, http_status_error, transport_error, absent}
use vh26_pixel_perfect.Outbox.FailurePolicy.Isolation.{IsOutage, IsRejection}
use vh26_pixel_perfect.Outbox.Tables.{Db, OutboxRow, pending}
use vh26_pixel_perfect.Outbox.Queue.Ids.{row_at}
use vh26_pixel_perfect.Outbox.Worker.{
  Worker, Outcome, Request, raised, handle_failure, dispatch_all,
}
use vh26_pixel_perfect.Outbox.Worker.Failures.{Keeps, Keeps-dispatch_all, StandsAs}
use vh26_pixel_perfect.Outbox.Worker.Charges.{handle_failure-Ends, GivenUp, Charged}

abbrev page : OutboxRow
page = record {
  outbox_id = 1;
  incident_id = "incident";
  channel = "slack";
  action = "create";
  payload = record { kind = none; delivered_via_fallback = none; failover_from = none; body = "" };
  status = pending;
  attempts = 4;
  next_attempt_at = 0;
  last_error = none;
  external_ref = none;
  priority = pos 0;
  locked_by = none;
  locked_until = none;
  superseded_by = none;
  failover_of = none;
  origin_channel = some "slack";
  created_at = 0;
  sent_at = none;
}

abbrev db : Db
db = record { health = []; outages = []; outbox = page ∷ [] }

abbrev worker : Worker
worker = record {
  worker_id = "a";
  breaker = record {
    failure_threshold = 1;
    probe_base = 5000;
    probe_max = 300000;
    half_open_allowance = 3;
  };
  settings = record { max_attempts = 5; lease = 30000; batch_size = 2 };
  hydrate = λ incident payload. payload;
  state_in = λ incident. none;
}

abbrev refused : Request → Outcome
refused q = raised (transport_error "ConnectError")

Keeps-dispatch_all_example : Keeps db.outbox (dispatch_all worker refused 100 (page ∷ []) db).outbox
Keeps-dispatch_all_example =
    Keeps-dispatch_all worker refused 100 (page ∷ []) db
      (λ q. (transport_error "ConnectError", refl, tt)) refl

page_at : row_at 1 db.outbox ≡ some page
unfolding row_at
page_at = refl

abbrev rate_limited : Failure
rate_limited = http_status_error 429 absent

handle_failure-Ends_example :
    (r' : OutboxRow) × (row_at 1 (handle_failure worker page rate_limited 100 db).outbox ≡ some r')
    × ((IsRejection rate_limited × GivenUp page r')
        ⊎ (IsOutage rate_limited × StandsAs page r')
        ⊎ ((¬ IsRejection rate_limited)
            × (¬ IsOutage rate_limited)
            × Charged worker.settings page r'))
handle_failure-Ends_example = handle_failure-Ends worker page rate_limited 100 db page_at
