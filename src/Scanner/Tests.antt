-- ===== src/Scanner/Tests.antt =====
-- A scanner of numbers whose first two calls fail.
use bitcoin_utxo_indexer.Prelude.{ℕ, zero, suc, ◌≡◌, ◌≢◌, refl, false, List, [], ◌∷◌, ◌++◌}
use bitcoin_utxo_indexer.Prelude.Str.{codes}
use bitcoin_utxo_indexer.Utxo.Outcome.{Outcome, ok, err, failed}
use bitcoin_utxo_indexer.Utxo.Method.{Method}
use bitcoin_utxo_indexer.Scanner.{Scanner, scan_blocks}
use bitcoin_utxo_indexer.Scanner.Progress.{IsHandler, Progress, scan_blocks-Progress}

-- The numbers handled so far, and the failures that are left, two at most.
record World : Type 0 where
  handled_numbers : List ℕ
  failures : ℕ

abbrev handle_with : ℕ → ℕ → List ℕ → Outcome (Unit {0}) × World
handle_with zero block numbers =
    (ok tt, record { handled_numbers = numbers ++ (block ∷ []); failures = 0 })
handle_with (suc zero) block numbers =
    (err failed, record { handled_numbers = numbers; failures = 0 })
handle_with (suc (suc n)) block numbers =
    (err failed, record { handled_numbers = numbers; failures = 1 })

abbrev handle : ℕ → Method World (Unit {0})
handle block w = handle_with w.failures block w.handled_numbers

abbrev numbers_scanner : Scanner World ℕ
numbers_scanner = record {
  get_last_scanned_block_hash = λ w. (ok (codes "h"), w);
  iterate = λ hash w. (ok (7 ∷ 8 ∷ []), w);
  handle_blocks = handle;
  cancelled = λ w. false;
  wait = λ w. w;
}

handle_ok :
    (failures block : ℕ) (numbers : List ℕ)
    → (handle_with failures block numbers).0 ≡ ok tt
    → (handle_with failures block numbers).1.handled_numbers ≡ numbers ++ (block ∷ [])
handle_ok zero block numbers h = refl
handle_ok (suc zero) block numbers h = absurd (cc)
handle_ok (suc (suc n)) block numbers h = absurd (cc)

handle_failed :
    (failures block : ℕ) (numbers : List ℕ)
    → (handle_with failures block numbers).0 ≢ ok tt
    → (handle_with failures block numbers).1.handled_numbers ≡ numbers
handle_failed zero block numbers h = absurd (h refl)
handle_failed (suc zero) block numbers h = refl
handle_failed (suc (suc n)) block numbers h = refl

numbers-IsHandler : IsHandler numbers_scanner
numbers-IsHandler = record {
  done = λ w. w.handled_numbers;
  handle_ok = λ block w h. handle_ok w.failures block w.handled_numbers h;
  handle_failed = λ block w h. handle_failed w.failures block w.handled_numbers h;
  wait-done = λ w. refl;
}

abbrev two_failures : World
two_failures = record { handled_numbers = []; failures = 2 }

scan_blocks-Progress_example :
    Progress numbers_scanner
      (λ w. w.handled_numbers)
      []
      (7 ∷ 8 ∷ [])
      (scan_blocks numbers_scanner 3 (7 ∷ 8 ∷ []) two_failures)
unfolding numbers-IsHandler
scan_blocks-Progress_example =
    scan_blocks-Progress numbers_scanner numbers-IsHandler 3 (7 ∷ 8 ∷ []) two_failures
