-- ===== src/Outbox/Queue/Trial.antt =====
-- The allowance of a channel on trial in outbox/worker.py.
use vh26_pixel_perfect.Prelude.{
  ℕ, ◌+◌, ◌-◌, ◌≡◌, min, String, string_eq, ◌==◌, eq_iff, Option, none, some, List, [], ◌∷◌,
  count_if, arith, Option-cases, inl, inr,
}
use vh26_pixel_perfect.Prelude.Dict
use vh26_pixel_perfect.Prelude.Dict.{Dict, get-put}
use vh26_pixel_perfect.Outbox.Tables.{OutboxRow}
use vh26_pixel_perfect.Outbox.Queue.{trim}

-- How many of `n` rows are let through, if `counts` has the channel at the given count.
abbrev pub quota : ℕ → Option ℕ → ℕ → ℕ
quota allowance none n = n
quota allowance (some used) n = min (allowance - used) n

abbrev pub of_channel : String → List OutboxRow → ℕ
of_channel c = count_if (λ r. r.channel == c)

-- Of a channel on trial at most the allowance is dispatched in one pass, and as many rows of it as
-- that lets through; all rows of any other channel are dispatched.
pub of_channel-trim :
    (allowance : ℕ) (counts : Dict String ℕ) (c : String) (rows : List OutboxRow)
    → of_channel c (trim allowance counts rows)
      ≡ quota allowance (Dict.get c counts) (of_channel c rows)
unfolding trim
of_channel-trim allowance counts c [] = ground arith
of_channel-trim allowance counts c (r ∷ rows) = elim (Option-cases (Dict.get r.channel counts)) [
  | inl free ↦ ground (arith, of_channel-trim allowance counts c rows, eq_iff r.channel c)
  | inr (n, on_trial) ↦ ground (
    arith,
    of_channel-trim allowance counts c rows,
    of_channel-trim allowance (Dict.put r.channel (n + 1) counts) c rows,
    get-put r.channel c (n + 1) counts,
    eq_iff r.channel c,
  )
]
