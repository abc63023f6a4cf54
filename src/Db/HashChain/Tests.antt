-- ===== src/Db/HashChain/Tests.antt =====
-- Tests of db/hashchain.py and scripts/verify_chain.py, with a stand-in for the hash that keeps its
-- width.
use vh26_pixel_perfect.Prelude.Int.{ℤ, pos}
use vh26_pixel_perfect.Prelude.{
  ℕ, zero, suc, ◌≡◌, ◌↔◌, ◌⊎◌, refl, String, Option, none, some, List, [], ◌∷◌, map,
}
use vh26_pixel_perfect.Db.HashChain.{
  FiredTime, LedgerEvent, ChainRow, genesis_hash, valid, wrong_hash, next_seq_and_prev_hash,
  compute_row_hash, append_event, canonical_payload, verify_chain, seq_and_hash_from, verify_from,
}
use vh26_pixel_perfect.Db.HashChain.Appends.{verify_chain-append_event}
use vh26_pixel_perfect.Db.HashChain.Tampering.{Clash, verify_chain-tamper_evident}

abbrev constant : String → String
constant s = genesis_hash

abbrev identity : String → String
identity s = s

abbrev at_instant : ℕ → Option ℤ → String → String
at_instant zero none body = "naive epoch"
at_instant zero (some (pos zero)) body = "epoch"
at_instant zero (some offset) body = "epoch elsewhere"
at_instant (suc t) offset body = body

abbrev text_of : FiredTime → String → String
text_of t body = at_instant t.instant t.offset body

-- A time in the first millisecond, but not at its start.
abbrev early : LedgerEvent
early = record { fired_at = record { instant = 7; offset = some (pos 0) }; body = "{}" }

-- The epoch, told two hours ahead of UTC.
abbrev elsewhere : LedgerEvent
elsewhere = record { fired_at = record { instant = 0; offset = some (pos 7200) }; body = "{}" }

-- The row of a whole millisecond with another offset does not verify either.
elsewhere_refused :
    verify_chain identity text_of (append_event identity text_of elsewhere []) ≡ wrong_hash 1
unfolding verify_chain append_event next_seq_and_prev_hash seq_and_hash_from verify_from
    compute_row_hash canonical_payload
elsewhere_refused = refl

-- The row that is appended for an event with a finer time does not verify.
early_refused :
    verify_chain identity text_of (append_event identity text_of early []) ≡ wrong_hash 1
unfolding verify_chain append_event next_seq_and_prev_hash seq_and_hash_from verify_from
    compute_row_hash canonical_payload
early_refused = refl

abbrev ledger : List ChainRow
ledger =
    record {
      seq = 1;
      fired_at_ms = 1700000000123;
      body = "{}";
      prev_hash = genesis_hash;
      row_hash = genesis_hash;
    }
    ∷ []

ledger_valid : verify_chain constant text_of ledger ≡ valid 1
unfolding verify_chain verify_from compute_row_hash canonical_payload
ledger_valid = refl

-- The same row, with another body.
abbrev forged : List ChainRow
forged =
    record {
      seq = 1;
      fired_at_ms = 1700000000123;
      body = "{1}";
      prev_hash = genesis_hash;
      row_hash = genesis_hash;
    }
    ∷ []

forged_valid : verify_chain constant text_of forged ≡ valid 1
unfolding verify_chain verify_from compute_row_hash canonical_payload
forged_valid = refl

same_end : (next_seq_and_prev_hash ledger).1 ≡ (next_seq_and_prev_hash forged).1
unfolding next_seq_and_prev_hash seq_and_hash_from
same_end = refl

none_valid : verify_chain identity text_of [] ≡ valid 0
unfolding verify_chain verify_from
none_valid = refl

verify_chain-append_event_example :
    (verify_chain identity text_of (append_event identity text_of early []) ≡ valid 1) ↔ (
      compute_row_hash identity
        (next_seq_and_prev_hash []).1
        (text_of (record { instant = 0; offset = some (pos 0) }) "{}")
      ≡ compute_row_hash identity
          (next_seq_and_prev_hash []).1
          (text_of (record { instant = 7; offset = some (pos 0) }) "{}"))
verify_chain-append_event_example = verify_chain-append_event identity text_of early [] 0 none_valid

verify_chain-tamper_evident_example :
    (map (canonical_payload text_of) ledger ≡ map (canonical_payload text_of) forged)
    ⊎ Clash constant text_of (λ s. refl) ledger forged
verify_chain-tamper_evident_example =
    verify_chain-tamper_evident constant text_of (λ s. refl) ledger forged 1 1 ledger_valid
      forged_valid refl same_end
