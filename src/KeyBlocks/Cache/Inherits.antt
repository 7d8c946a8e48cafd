-- ===== src/KeyBlocks/Cache/Inherits.antt =====
-- The result for a block depends on the call before: a failure of one block is inherited by the next.
use mdictlib.Prelude.{
  ℕ, suc, ◌≡◌, ◌==◌, Option, none, some, Option-cases, get_elem?, refl, inl, inr, true, false,
  arith,
}
use mdictlib.Error.{Error, ok, err}
use mdictlib.Budget.{MemoryBudget}
use mdictlib.Failure.{CachedFailure, failed, replay}
use mdictlib.KeyBlocks.{KeyFile, DecodedKeyBlock}
use mdictlib.KeyBlocks.Cache.{CachedKeys, KeyState, load_block, remember_failure, decode_key_block}
use mdictlib.KeyBlocks.Cache.Consistent.{fresh}

same_index : (n : ℕ) → (n == n) ≡ true
same_index n = ground arith

next_index : (n : ℕ) → (n == suc n) ≡ false
next_index n = ground arith

module _ (file : KeyFile) where
  failure_result :
      (index : ℕ) (e : Error) (old : CachedKeys) (c : Option CachedFailure × MemoryBudget)
      → (remember_failure file index e old c).0 ≡ err e
  failure_result index e old (none, b) = refl
  failure_result index e old (some f, b) = refl

  in_range :
      (index : ℕ) (block : DecodedKeyBlock)
      → fresh file index ≡ ok block
      → (b : _) × (get_elem? file.key_blocks index ≡ some b)
  unfolding fresh
  in_range index block h = elim (Option-cases (get_elem? file.key_blocks index)) [
    | inl e ↦ absurd (cc (rw (e, fresh) at h))
    | inr found ↦ found
  ]

  inherits :
      (index : ℕ) (s : KeyState) (f : CachedFailure) (block : DecodedKeyBlock)
      → s.key_block_cache ≡ some (index, failed f)
      → fresh file (suc index) ≡ ok block
      → (decode_key_block file (suc index) s).0 ≡ err (replay f)
  unfolding decode_key_block load_block
  inherits index s f block c h =
      let found = in_range (suc index) block h in
      rw (c, next_index index, load_block, found.1, same_index index)
        (failure_result (suc index) (replay f) _ _)

  -- Where a call for a block has failed and its failure was kept, a call for the next block returns that
  -- failure again, also if the next block by itself can be decoded and is in order.
  pub decode_key_block-inherits :
      (index : ℕ) (s : KeyState) (f : CachedFailure) (block : DecodedKeyBlock)
      → (decode_key_block file index s).1.key_block_cache ≡ some (index, failed f)
      → fresh file (suc index) ≡ ok block
      → (decode_key_block file (suc index) (decode_key_block file index s).1).0 ≡ err (replay f)
  decode_key_block-inherits index s f block c h =
      inherits index (decode_key_block file index s).1 f block c h
