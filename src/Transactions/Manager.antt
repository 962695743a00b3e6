-- ===== src/Transactions/Manager.antt =====
-- transactionmanager/txmanager/manager.go. The driver of a database is a parameter.
use bitcoin_utxo_indexer.Prelude.{Bool, true, false, Option, none, some}

-- What `Do` calls, on the state of the driver and of the database; `false` is an error. `run` is the
-- function that is given.
pub record Driver (World : Type 0) : Type 0 where
  pub begin : World → World × Bool
  pub run : World → World × Bool
  pub commit : World → World × Bool
  pub roll_back : World → World × Bool

-- The errors of `Do`: its own, and the function's, which it passes on.
pub data DoResult : Type 0 where
  done no_factory not_created function_failed commit_failed roll_back_failed : DoResult

module _ (World : Type 0) where
  abbrev choose : Bool → DoResult × World → DoResult × World → DoResult × World
  choose true a b = a
  choose false a b = b

  -- `Rollback`, whose own error takes the place of the first one.
  unfoldable pub roll_back_after : Driver World → DoResult → World → DoResult × World
  roll_back_after d e w =
      let (w', rolled) = d.roll_back w in choose rolled (e, w') (roll_back_failed, w')

  unfoldable pub commit_after : Driver World → World → DoResult × World
  unfolding roll_back_after
  commit_after d w =
      let (w', committed) = d.commit w in
      choose committed (done, w') (roll_back_after d commit_failed w')

  unfoldable pub run_after : Driver World → World → DoResult × World
  unfolding roll_back_after commit_after
  run_after d w =
      let (w', ran) = d.run w in
      choose ran (commit_after d w') (roll_back_after d function_failed w')

  unfoldable pub do_created : Driver World → World → DoResult × World
  unfolding run_after
  do_created d w =
      let (w', created) = d.begin w in choose created (run_after d w') (not_created, w')

  -- `Do`; `none` is a manager whose factory is nil.
  unfoldable pub do_transaction : Option (Driver World) → World → DoResult × World
  unfolding do_created
  do_transaction none w = (no_factory, w)
  do_transaction (some d) w = do_created d w
