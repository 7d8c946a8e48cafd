-- ===== src/KeyBlocks/Cache/Uncached.antt =====
-- decode_key_block_uncached returns what the block holds, or the budget is exhausted.
use mdictlib.Prelude.{ℕ, ◌≡◌, arith}
use mdictlib.Error.{Result, ok}
use mdictlib.Error.{◌>>=◌ as and_then}
use mdictlib.Budget.Implements.{
  Implements, nothing, lift-Implements, bind-Implements, with_reserved-Implements,
  with_retained-Implements,
}
use mdictlib.Descriptors.{Text}
use mdictlib.KeyBlocks.{
  KeyFile, DecodedKeyBlock, BlockPlan, first_row, last_row, plan_block, fetch_rows, summary_memory,
  same_summary, check_summary, boundary, block_entries,
}
use mdictlib.KeyBlocks.Cache.{key_summary_matches, decode_key_block_uncached}

abbrev pub reserved_of : DecodedKeyBlock → ℕ
reserved_of block = block.reserved

module _ (file : KeyFile) where
  summary-Implements :
      (decoded summary : Text)
      → Implements
          (key_summary_matches file decoded summary)
          (check_summary file decoded summary)
          nothing
  unfolding key_summary_matches check_summary
  summary-Implements decoded summary =
      bind-Implements _ _ _ _ nothing (lift-Implements (summary_memory file decoded summary)) (λ n.
        bind-Implements _ _ _ _ nothing
          (with_reserved-Implements n _ _ nothing
            (lift-Implements (same_summary file decoded summary)))
          (λ same. lift-Implements _))

  -- What stands behind the reservations.
  rest_of_block : BlockPlan → Result DecodedKeyBlock
  rest_of_block plan = and_then (fetch_rows file plan) (λ rows.
      and_then (boundary file (first_row rows)) (λ first.
        and_then (boundary file (last_row rows)) (λ last.
          and_then (check_summary file first.key plan.block.first_key) (λ _.
            and_then (check_summary file last.key plan.block.last_key)
              (λ _. ok (record { entries = rows; reserved = plan.retained_bytes }))))))

  rest_reserved :
      (plan : BlockPlan) (block : DecodedKeyBlock)
      → rest_of_block plan ≡ ok block
      → block.reserved ≡ plan.retained_bytes
  unfolding rest_of_block
  rest_reserved plan block h = ground arith

  pub uncached-Implements :
      (index : ℕ)
      → Implements (decode_key_block_uncached file index) (block_entries file index) reserved_of
  unfolding decode_key_block_uncached block_entries rest_of_block
  uncached-Implements index =
      bind-Implements _ _ _ _ reserved_of (lift-Implements (plan_block file index)) (λ plan.
        with_retained-Implements plan.retained_bytes _ (rest_of_block plan) reserved_of
          (with_reserved-Implements plan.comp_size _ _ nothing (
            with_reserved-Implements plan.decomp_size _ _ nothing (
              bind-Implements _ _ _ _ nothing (lift-Implements (fetch_rows file plan)) (λ rows.
                bind-Implements _ _ _ _ nothing (lift-Implements _) (λ first.
                  bind-Implements _ _ _ _ nothing (lift-Implements _) (λ last.
                    bind-Implements _ _ _ _ nothing (summary-Implements first.key _) (λ _.
                      bind-Implements _ _ _ _ nothing (summary-Implements last.key _)
                        (λ _. lift-Implements _))))))))
          (rest_reserved plan))
