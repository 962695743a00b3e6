-- ===== src/Blocks/Options.antt =====
-- bitcoinblocksiterator/options.go.
pub mod Usable
use bitcoin_utxo_indexer.Prelude.{
  ℕ, zero, suc, ◌<◌, List, [], ◌∷◌, ◌⊎◌, inl, inr, ◌≡◌, refl, arith, ◌*◌, ◌^◌,
}
use bitcoin_utxo_indexer.Utxo.Block.{ℤ, pos, negsuc}

pub data ConfigError : Type 0 where
  invalid_concurrent_blocks_download_limit : ConfigError
  invalid_block_headers_buffer_size : ConfigError

-- time.Second, in nanoseconds.
abbrev second : ℕ
second = 10 ^ 9

module _ (Logger : Type 0) (default_context_logger : Logger) where
  pub record Options : Type 0 where
    pub logger : Logger
    pub wait_after_error_duration : ℤ
    pub download_headers_interval : ℤ
    pub concurrent_blocks_download_limit : ℤ
    pub block_headers_buffer_size : ℤ

  abbrev pub BitcoinBlocksIteratorOption : Type 0
  BitcoinBlocksIteratorOption = Options → ConfigError ⊎ Options

  unfoldable pub with_logger : Logger → BitcoinBlocksIteratorOption
  with_logger l o = inr (record {
    logger = l;
    wait_after_error_duration = o.wait_after_error_duration;
    download_headers_interval = o.download_headers_interval;
    concurrent_blocks_download_limit = o.concurrent_blocks_download_limit;
    block_headers_buffer_size = o.block_headers_buffer_size;
  })

  unfoldable pub with_wait_after_error_duration : ℤ → BitcoinBlocksIteratorOption
  with_wait_after_error_duration duration o = inr (record {
    logger = o.logger;
    wait_after_error_duration = duration;
    download_headers_interval = o.download_headers_interval;
    concurrent_blocks_download_limit = o.concurrent_blocks_download_limit;
    block_headers_buffer_size = o.block_headers_buffer_size;
  })

  unfoldable pub with_download_headers_interval : ℤ → BitcoinBlocksIteratorOption
  with_download_headers_interval duration o = inr (record {
    logger = o.logger;
    wait_after_error_duration = o.wait_after_error_duration;
    download_headers_interval = duration;
    concurrent_blocks_download_limit = o.concurrent_blocks_download_limit;
    block_headers_buffer_size = o.block_headers_buffer_size;
  })

  unfoldable pub with_concurrent_blocks_download_limit : ℤ → BitcoinBlocksIteratorOption
  with_concurrent_blocks_download_limit (pos (suc n)) o = inr (record {
    logger = o.logger;
    wait_after_error_duration = o.wait_after_error_duration;
    download_headers_interval = o.download_headers_interval;
    concurrent_blocks_download_limit = pos (suc n);
    block_headers_buffer_size = o.block_headers_buffer_size;
  })
  with_concurrent_blocks_download_limit _ o = inl invalid_concurrent_blocks_download_limit

  unfoldable pub with_block_headers_buffer_size : ℤ → BitcoinBlocksIteratorOption
  with_block_headers_buffer_size (pos (suc n)) o = inr (record {
    logger = o.logger;
    wait_after_error_duration = o.wait_after_error_duration;
    download_headers_interval = o.download_headers_interval;
    concurrent_blocks_download_limit = o.concurrent_blocks_download_limit;
    block_headers_buffer_size = pos (suc n);
  })
  with_block_headers_buffer_size _ o = inl invalid_block_headers_buffer_size

  default_options : Options
  default_options = record {
    logger = default_context_logger;
    wait_after_error_duration = pos (second * 5);
    download_headers_interval = pos (second * 30);
    concurrent_blocks_download_limit = pos 1;
    block_headers_buffer_size = pos 1;
  }

  unfoldable pub apply_options : List BitcoinBlocksIteratorOption → Options → ConfigError ⊎ Options
  apply_options [] o = inr o
  apply_options (opt ∷ opts) o = elim (opt o) [
    | inl e ↦ inl e
    | inr changed ↦ apply_options opts changed
  ]

  unfoldable pub build_options : List BitcoinBlocksIteratorOption → ConfigError ⊎ Options
  unfolding apply_options default_options
  build_options opts = apply_options opts default_options

  -- The options the package offers, each with its argument.
  pub data Setting : Type 0 where
    logger_of : Logger → Setting
    wait_of interval_of limit_of buffer_of : ℤ → Setting

  pub option : Setting → BitcoinBlocksIteratorOption
  unfolding with_logger with_wait_after_error_duration with_download_headers_interval
      with_concurrent_blocks_download_limit with_block_headers_buffer_size
  option (logger_of l) = with_logger l
  option (wait_of d) = with_wait_after_error_duration d
  option (interval_of d) = with_download_headers_interval d
  option (limit_of n) = with_concurrent_blocks_download_limit n
  option (buffer_of n) = with_block_headers_buffer_size n

  pub IsPositive : ℤ → Type 0
  IsPositive (pos n) = 0 < n
  IsPositive (negsuc n) = ⊥

  pub IsUsable : Options → Type 0
  unfolding IsPositive
  IsUsable o =
      IsPositive o.concurrent_blocks_download_limit × IsPositive o.block_headers_buffer_size
