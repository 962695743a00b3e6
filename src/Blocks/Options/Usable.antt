-- ===== src/Blocks/Options/Usable.antt =====
-- Options that `buildOptions` returns have room for a download and for a header.
use bitcoin_utxo_indexer.Prelude.{
  zero, suc, List, [], ◌∷◌, map, Option, none, some, ◌⊎◌, inl, inr, ◌≡◌, refl, arith,
}
use bitcoin_utxo_indexer.Utxo.Block.{ℤ, pos, negsuc}
use bitcoin_utxo_indexer.Blocks.Options.{
  ConfigError, invalid_concurrent_blocks_download_limit, invalid_block_headers_buffer_size, Options,
  with_logger, with_wait_after_error_duration, with_download_headers_interval,
  with_concurrent_blocks_download_limit, with_block_headers_buffer_size, default_options,
  apply_options, build_options, Setting, logger_of, wait_of, interval_of, limit_of, buffer_of,
  option, IsPositive, IsUsable,
}

pub positive_or : ConfigError → ℤ → Option ConfigError
positive_or e (pos (suc n)) = none
positive_or e _ = some e

module _ (Logger : Type 0) (default_context_logger : Logger) where
  pub setting_error : Setting Logger default_context_logger → Option ConfigError
  unfolding positive_or
  setting_error (limit_of n) = positive_or invalid_concurrent_blocks_download_limit n
  setting_error (buffer_of n) = positive_or invalid_block_headers_buffer_size n
  setting_error _ = none

  pub first_error : List (Setting Logger default_context_logger) → Option ConfigError
  unfolding setting_error
  first_error [] = none
  first_error (setting ∷ settings) = elim (setting_error setting) [
    | none ↦ first_error settings
    | some e ↦ some e
  ]

  -- What a call with these settings returns.
  pub Expected : Option ConfigError → ConfigError ⊎ Options Logger default_context_logger → Type 0
  unfolding IsUsable
  Expected none (inr o) = IsUsable Logger default_context_logger o
  Expected (some e) (inl e') = e ≡ e'
  Expected _ _ = ⊥

  apply_options-Expected :
      (settings : List (Setting Logger default_context_logger))
      (o : Options Logger default_context_logger)
      → IsUsable Logger default_context_logger o
      → Expected (first_error settings) (
          apply_options Logger default_context_logger
            (map (option Logger default_context_logger) settings)
            o)
  unfolding Expected first_error setting_error positive_or apply_options option IsUsable IsPositive
      with_logger with_wait_after_error_duration with_download_headers_interval
      with_concurrent_blocks_download_limit with_block_headers_buffer_size
  apply_options-Expected [] o usable = usable
  apply_options-Expected (logger_of l ∷ settings) o usable =
      apply_options-Expected settings _ usable
  apply_options-Expected (wait_of d ∷ settings) o usable = apply_options-Expected settings _ usable
  apply_options-Expected (interval_of d ∷ settings) o usable =
      apply_options-Expected settings _ usable
  apply_options-Expected (limit_of (pos zero) ∷ settings) o usable = refl
  apply_options-Expected (limit_of (negsuc n) ∷ settings) o usable = refl
  apply_options-Expected (limit_of (pos (suc n)) ∷ settings) o usable =
      apply_options-Expected settings _ (omega arith, usable.1)
  apply_options-Expected (buffer_of (pos zero) ∷ settings) o usable = refl
  apply_options-Expected (buffer_of (negsuc n) ∷ settings) o usable = refl
  apply_options-Expected (buffer_of (pos (suc n)) ∷ settings) o usable =
      apply_options-Expected settings _ (usable.0, omega arith)

  -- `buildOptions` returns the error of the first setting whose limit or buffer size is not above
  -- zero. Without such a setting it returns options whose limit and buffer size are above zero.
  pub build_options-Expected :
      (settings : List (Setting Logger default_context_logger))
      → Expected (first_error settings) (
          build_options Logger default_context_logger
            (map (option Logger default_context_logger) settings))
  unfolding build_options default_options IsUsable IsPositive
  build_options-Expected settings =
      apply_options-Expected settings (default_options Logger default_context_logger)
        (omega arith, omega arith)
