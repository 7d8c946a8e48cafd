-- ===== src/KeyBlocks/Cache/Consistent.antt =====
-- What decode_key_block returns, whatever its cache holds.
use mathlib.Core.Path.{subst}
use mdictlib.Prelude.{
  ℕ, zero, suc, ◌+◌, ◌≤◌, ◌≡◌, ◌==◌, ==_iff, Bool-cases, Option, none, some, Option-cases,
  get_elem?, refl, sym, ap, ◌∙◌, ◌⊎◌, inl, inr, arith,
}
use mdictlib.Error.{Error, Result, ok, err, invalid_format, ◌>>=◌}
use mdictlib.Budget.{MemoryBudget, release}
use mdictlib.Budget.Laws.{IsSound, release-IsSound}
use mdictlib.Budget.Implements.{IsBudgetError, Follows}
use mdictlib.Failure.{CachedFailure, CachedValue, ready, failed, capture, replay}
use mdictlib.Failure.Laws.{capture-replay, capture-none, IsTransient}
use mdictlib.KeyBlocks.{KeyFile, DecodedKeyBlock, block_entries}
use mdictlib.KeyBlocks.Cache.{
  CachedKeys, KeyState, held_keys, decode_key_block_uncached, last_start, drop_previous,
  cached_last, previous_from, previous_last, check_first, drop_refused, checked_block, with_cache,
  behind_previous, load_block, remember_failure, remember, cached_result, decode_cached,
  decode_key_block,
}
use mdictlib.KeyBlocks.Cache.Uncached.{reserved_of, uncached-Implements}

module _ (file : KeyFile) where
  -- The last record start of the block before, as it stands in the file.
  abbrev pub start_before : ℕ → Result (Option ℕ)
  start_before zero = ok none
  start_before (suc index) = block_entries file index >>= last_start file

  abbrev pub checked_with : DecodedKeyBlock → Result (Unit {0}) → Result DecodedKeyBlock
  checked_with block (ok _) = ok block
  checked_with block (err e) = err e

  -- What a block is without cache and budget: its rows, if they follow those of the block before.
  unfoldable pub fresh : ℕ → Result DecodedKeyBlock
  fresh index = elim (get_elem? file.key_blocks index) [
    | none ↦ err (invalid_format "key block index out of range")
    | some block ↦ start_before index >>= (λ previous.
        block_entries file index
        >>= (λ decoded. checked_with decoded (check_first file previous decoded)))
  ]

  -- The error of this block or of one before it.
  abbrev pub Inherited : ℕ → Error → Type 0
  Inherited index e = (j : ℕ) × (j ≤ index) × (fresh j ≡ err e)

  abbrev pub Returns : ℕ → Result DecodedKeyBlock → Type 0
  Returns index (ok block) = fresh index ≡ ok block
  Returns index (err e) = Inherited index e ⊎ IsBudgetError e

  abbrev pub Reflects : CachedKeys → Type 0
  Reflects none = Unit {0}
  Reflects (some (index, ready block)) = fresh index ≡ ok block
  Reflects (some (index, failed failure)) = Inherited index (replay failure)

  -- The cache is right, and the budget accounts for it and for `rest` bytes elsewhere.
  pub record IsConsistent (rest : ℕ) (s : KeyState) : Type 0 where
    pub reflects : Reflects s.key_block_cache
    pub sound : IsSound s.memory (rest + held_keys s.key_block_cache)

  pub fresh_entries :
      (index : ℕ) (block : DecodedKeyBlock)
      → fresh index ≡ ok block
      → block_entries file index ≡ ok block
  unfolding fresh
  fresh_entries index block h = ground arith

  -- The budget and the error behind the search for the previous start.
  Before : ℕ → ℕ → Result (Option ℕ) × MemoryBudget → Type 0
  Before index live (ok previous, b) = (start_before index ≡ ok previous) × IsSound b live
  Before index live (err e, b) =
      ((start_before index ≡ err e) ⊎ (Inherited index e ⊎ IsBudgetError e)) × IsSound b live

  last-Before :
      (index live : ℕ) (block : DecodedKeyBlock) (b : MemoryBudget) (r : Result (Option ℕ))
      → last_start file block ≡ r
      → block_entries file index ≡ ok block
      → IsSound b live
      → Before (suc index) live (r, b)
  unfolding Before
  last-Before index live block b (ok p) e h s = (rw h e, s)
  last-Before index live block b (err x) e h s = (inl (rw h e), s)

  dropped-Before :
      (index live : ℕ) (p : Result DecodedKeyBlock × MemoryBudget)
      → Follows (block_entries file index) reserved_of live p
      → Before (suc index) live (drop_previous file p)
  unfolding Before Follows
  dropped-Before index live (ok block, b) h =
      last-Before index live block (release block.reserved b) (last_start file block) refl h.0
        (release-IsSound block.reserved live b h.1).0
  dropped-Before index live (err e, b) (inl h, s) = (inl (rw h refl), s)
  dropped-Before index live (err e, b) (inr h, s) = (inr (inr h), s)

  cached-Before :
      (index live : ℕ) (v : CachedValue DecodedKeyBlock) (b : MemoryBudget)
      → Reflects (some (index, v))
      → IsSound b live
      → Before (suc index) live (cached_last file v, b)
  unfolding Before
  cached-Before index live (ready block) b h s =
      last-Before index live block b (last_start file block) refl (fresh_entries index block h) s
  cached-Before index live (failed f) b (j, below, h) s = (inr (inl (j, omega arith, h)), s)

  from-Before :
      (index live : ℕ) (c : CachedKeys) (b : MemoryBudget)
      → Reflects c
      → IsSound b live
      → Before (suc index) live (previous_from file index b c)
  from-Before index live none b h s =
      dropped-Before index live (decode_key_block_uncached file index b)
        (uncached-Implements file index b live s)
  from-Before index live (some (k, v)) b h s = elim (Bool-cases (k == index)) [
    | inl e ↦ rw e (
        cached-Before index live v b (subst (λ i. Reflects (some (i, v))) ((==_iff k index).0 e) h)
          s)
    | inr e ↦ rw e (
        dropped-Before index live (decode_key_block_uncached file index b)
          (uncached-Implements file index b live s))
  ]

  previous-Before :
      (index rest : ℕ) (s : KeyState)
      → IsConsistent rest s
      → Before index (rest + held_keys s.key_block_cache) (previous_last file index s)
  unfolding Before
  previous-Before zero rest s good = (refl, good.sound)
  previous-Before (suc index) rest s good =
      from-Before index (rest + held_keys s.key_block_cache) s.key_block_cache s.memory
        good.reflects good.sound

  -- A block that was loaded, and the empty cache; or the error, and a state that is right.
  Loaded : ℕ → ℕ → Result DecodedKeyBlock × KeyState → Type 0
  Loaded index rest (ok block, s) =
      (fresh index ≡ ok block) × IsSound s.memory (rest + block.reserved)
  Loaded index rest (err e, s) = (Inherited index e ⊎ IsBudgetError e) × IsConsistent rest s

  no_cache :
      (rest : ℕ) (b : MemoryBudget)
      → IsSound b rest
      → IsConsistent rest (record { memory = b; key_block_cache = none })
  no_cache rest b s = record { reflects = tt; sound = omega arith }

  refused-Loaded :
      (index rest : ℕ) (block : DecodedKeyBlock) (b : MemoryBudget) (r : Result (Unit {0}))
      → fresh index ≡ checked_with block r
      → IsSound b (rest + block.reserved)
      → Loaded index rest (with_cache file none (drop_refused file block b r))
  unfolding Loaded
  refused-Loaded index rest block b (ok _) h s = (h, s)
  refused-Loaded index rest block b (err e) h s =
      (inl (index, omega arith, h), no_cache rest _ (release-IsSound block.reserved rest b s).0)

  checked-Loaded :
      (index rest : ℕ) (previous : Option ℕ) (q : Result DecodedKeyBlock × MemoryBudget)
      → fresh index ≡ (
          block_entries file index
          >>= (λ decoded. checked_with decoded (check_first file previous decoded)))
      → Follows (block_entries file index) reserved_of rest q
      → Loaded index rest (with_cache file none (checked_block file previous q))
  unfolding Loaded Follows
  checked-Loaded index rest previous (ok block, b) f h =
      refused-Loaded index rest block b (check_first file previous block) (f ∙ rw h.0 refl) h.1
  checked-Loaded index rest previous (err e, b) f (inl h, s) =
      (inl (index, omega arith, f ∙ rw h refl), no_cache rest b s)
  checked-Loaded index rest previous (err e, b) f (inr h, s) = (inr h, no_cache rest b s)

  behind-Loaded :
      (index rest : ℕ) (cache : CachedKeys) (p : Result (Option ℕ) × MemoryBudget)
      → fresh index ≡ (
          start_before index >>= (λ previous.
            block_entries file index
            >>= (λ decoded. checked_with decoded (check_first file previous decoded))))
      → Reflects cache
      → Before index (rest + held_keys cache) p
      → Loaded index rest (behind_previous file index cache p)
  unfolding Before
  behind-Loaded index rest cache (ok previous, b) f c h =
      checked-Loaded index rest previous _ (f ∙ rw h.0 refl)
        (uncached-Implements file index _ rest (release-IsSound (held_keys cache) rest b h.1).0)
  behind-Loaded index rest cache (err e, b) f c (inl h, s) =
      unfold Loaded in (inl (index, omega arith, f ∙ rw h refl), record { reflects = c; sound = s })
  behind-Loaded index rest cache (err e, b) f c (inr h, s) =
      unfold Loaded in (h, record { reflects = c; sound = s })

  load-Loaded :
      (index rest : ℕ) (s : KeyState)
      → IsConsistent rest s
      → Loaded index rest (load_block file index s)
  unfolding load_block fresh
  load-Loaded index rest s good = elim (Option-cases (get_elem? file.key_blocks index)) [
    | inl e ↦
        unfold Loaded in rw (load_block, e) (inl (index, omega arith, rw (e, fresh) refl), good)
    | inr (block, e) ↦
        rw (load_block, e)
          (behind-Loaded index rest s.key_block_cache (previous_last file index s)
            (rw (e, fresh) refl) good.reflects (previous-Before index rest s good))
  ]

  -- An error that may be kept is not the budget's.
  settled :
      {index : ℕ} {e e' : Error}
      → Inherited index e ⊎ IsBudgetError e
      → e' ≡ e
      → ¬ IsTransient e
      → Inherited index e'
  settled (inl (j, below, h)) same stays = (j, below, h ∙ ap err (sym same))
  settled (inr (value, max, h)) same stays = absurd (stays (subst IsTransient (sym h) refl))

  -- What is claimed of the result and of the state behind it.
  Answers : ℕ → ℕ → Result DecodedKeyBlock × KeyState → Type 0
  Answers index rest (r, s) = Returns index r × IsConsistent rest s

  captured :
      (index rest : ℕ) (e : Error) (old : CachedKeys) (b : MemoryBudget)
      (c : Option CachedFailure × MemoryBudget)
      → capture e b ≡ c
      → Inherited index e ⊎ IsBudgetError e
      → Reflects old
      → IsSound b (rest + held_keys old)
      → Answers index rest (remember_failure file index e old c)
  unfolding Answers
  captured index rest e old b (none, b') h m o s = (
    m,
    record {
      reflects = o;
      sound =
          (let same : b' ≡ b = capture-none e b b' h in
            subst (λ t. IsSound t (rest + held_keys old)) (sym same) s);
    },
  )
  captured index rest e old b (some f, b') h m o s =
      let kept : (replay f ≡ e)
          × (¬ IsTransient e)
          × IsSound b' (rest + held_keys old + f.reserved) =
        capture-replay e b (rest + held_keys old) f b' s h in
      (
        m,
        record {
          reflects = settled m kept.0 kept.1;
          sound =
              (release-IsSound (held_keys old) (rest + f.reserved) b'
                (swap rest (held_keys old) f.reserved b' kept.2)).0;
        },
      )
    where
      swap :
          (rest old new : ℕ) (b : MemoryBudget)
          → IsSound b (rest + old + new)
          → IsSound b (rest + new + old)
      swap rest old new b s = omega arith

  remembered :
      (index rest : ℕ) (p : Result DecodedKeyBlock × KeyState)
      → Loaded index rest p
      → Answers index rest (remember file index p)
  unfolding Answers Loaded
  remembered index rest (ok block, s) h = (h.0, record { reflects = h.0; sound = h.1 })
  remembered index rest (err e, s) h =
      captured index rest e s.key_block_cache s.memory (capture e s.memory) refl h.0 h.1.reflects
        h.1.sound

  hit-Answers :
      (index rest : ℕ) (v : CachedValue DecodedKeyBlock) (s : KeyState)
      → Reflects (some (index, v))
      → IsConsistent rest s
      → Answers index rest (cached_result file v, s)
  unfolding Answers
  hit-Answers index rest (ready block) s h good = (h, good)
  hit-Answers index rest (failed f) s h good = (inl h, good)

  cached-Answers :
      (index rest : ℕ) (s : KeyState) (c : CachedKeys)
      → Reflects c
      → IsConsistent rest s
      → Answers index rest (decode_cached file index s c)
  cached-Answers index rest s none h good = remembered index rest _ (load-Loaded index rest s good)
  cached-Answers index rest s (some (k, v)) h good = elim (Bool-cases (k == index)) [
    | inl e ↦ rw e (
        hit-Answers index rest v s (subst (λ i. Reflects (some (i, v))) ((==_iff k index).0 e) h)
          good)
    | inr e ↦ rw e (remembered index rest _ (load-Loaded index rest s good))
  ]

  -- In a consistent state, whatever the cache holds: a block that `decode_key_block` returns is the one
  -- that the file holds, in order behind the block before it; an error is that of this block or of
  -- one before it, or the budget is exhausted; and the state that is left is consistent again.
  pub decode_key_block-Returns :
      (index rest : ℕ) (s : KeyState)
      → IsConsistent rest s
      → Returns index (decode_key_block file index s).0
        × IsConsistent rest (decode_key_block file index s).1
  unfolding Answers decode_key_block
  decode_key_block-Returns index rest s good =
      cached-Answers index rest s s.key_block_cache good.reflects good
