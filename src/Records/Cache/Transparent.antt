-- ===== src/Records/Cache/Transparent.antt =====
-- The cache of decode_record_block is transparent: it returns what decoding the block returns, or the
-- budget is exhausted, and the budget accounts for the cached value.
use mdictlib.Budget.Implements.{IsBudgetError, claim_err, keep_scope, keep_claimed, with_retained}
use mathlib.Core.Path.{subst}
use mdictlib.Prelude.{
  ℕ, ◌+◌, ◌==◌, ==_iff, Bool-cases, Option, none, some, List, get_elem?, ◌≡◌, refl, sym, ap, ◌∙◌,
  ◌⊎◌, inl, inr, arith,
}
use mdictlib.Error.{Error, Result, ok, err, ok_or, invalid_format, Result-cases}
use mdictlib.Limits.{checked_usize}
use mdictlib.Budget.{MemoryBudget, claim, release}
use mdictlib.Budget.Laws.{IsSound, claim-IsSound, release-IsSound}
use mdictlib.Budget.Memory.{MemoryM, lift, ◌>>=◌, with_reserved, scope}
use mdictlib.Failure.{CachedFailure, CachedValue, ready, failed, capture, replay}
use mdictlib.Failure.Laws.{capture-replay, capture-none, IsTransient}
use mdictlib.Records.File.{MdictFile, fetch_block, block_contents}
use mdictlib.Records.Cache.{
  DecodedRecordBlock, CachedBlock, ReadState, held, decode_record_block_uncached, decode_miss,
  decode_cached, decode_record_block, remember, remember_failure, cached_result,
}

-- The result is the reference, or the budget is exhausted.
abbrev pub Matches : Result (List ℕ) → Result (List ℕ) → Type 0
Matches expected (ok bytes) = expected ≡ ok bytes
Matches expected (err e) = (expected ≡ err e) ⊎ IsBudgetError e

Fetched : Result (List ℕ) → ℕ → ℕ → Result DecodedRecordBlock × MemoryBudget → Type 0
Fetched expected size live (ok d, b) =
    (expected ≡ ok d.bytes) × (d.reserved ≡ size) × IsSound b live
Fetched expected size live (err e, b) = ((expected ≡ err e) ⊎ IsBudgetError e) × IsSound b live

Stored : Result (List ℕ) → ℕ → Result DecodedRecordBlock × MemoryBudget → Type 0
Stored expected live (ok d, b) = (expected ≡ ok d.bytes) × IsSound b (live + d.reserved)
Stored expected live (err e, b) = ((expected ≡ err e) ⊎ IsBudgetError e) × IsSound b live

body-Fetched :
    (r : Result (List ℕ)) (size live : ℕ) (b : MemoryBudget)
    → IsSound b live
    → Fetched r size live
        ((lift r >>= λ bytes. lift (ok (record { bytes = bytes; reserved = size }))) b)
unfolding Fetched lift ◌>>=◌
body-Fetched (ok bytes) size live b s = (refl, refl, s)
body-Fetched (err e) size live b s = (inl refl, s)

end-Fetched :
    (r : Result (List ℕ)) (size live bytes : ℕ) (p : Result DecodedRecordBlock × MemoryBudget)
    → Fetched r size (live + bytes) p
    → Fetched r size live (p.0, release bytes p.1)
unfolding Fetched
end-Fetched r size live bytes (ok d, b) h = (h.0, h.1, (release-IsSound bytes live b h.2).0)
end-Fetched r size live bytes (err e, b) h = (h.0, (release-IsSound bytes live b h.1).0)

reserved-Fetched :
    (r : Result (List ℕ)) (size live bytes : ℕ) (m : MemoryM DecodedRecordBlock) (b : MemoryBudget)
    (claimed : Result MemoryBudget)
    → claim bytes b ≡ claimed
    → IsSound b live
    → ((b' : MemoryBudget) → IsSound b' (live + bytes) → Fetched r size (live + bytes) (m b'))
    → Fetched r size live (scope bytes m b claimed)
unfolding Fetched
reserved-Fetched r size live bytes m b (ok b') e s h =
    end-Fetched r size live bytes (m b') (h b' (claim-IsSound bytes live b s e).0)
reserved-Fetched r size live bytes m b (err x) e s h = (inr (claim_err bytes b x e), s)

keep-Stored :
    (r : Result (List ℕ)) (size live : ℕ) (p : Result DecodedRecordBlock × MemoryBudget)
    → Fetched r size (live + size) p
    → Stored r live (keep_scope size p)
unfolding Fetched Stored
keep-Stored r size live (ok d, b) h = (h.0, rw h.1 h.2)
keep-Stored r size live (err e, b) h = (h.0, (release-IsSound size live b h.1).0)

retained-Stored :
    (r : Result (List ℕ)) (size live : ℕ) (m : MemoryM DecodedRecordBlock) (b : MemoryBudget)
    (claimed : Result MemoryBudget)
    → claim size b ≡ claimed
    → IsSound b live
    → ((b' : MemoryBudget) → IsSound b' (live + size) → Fetched r size (live + size) (m b'))
    → Stored r live (keep_claimed size m b claimed)
unfolding Stored
retained-Stored r size live m b (ok b') e s h =
    keep-Stored r size live (m b') (h b' (claim-IsSound size live b s e).0)
retained-Stored r size live m b (err x) e s h = (inr (claim_err size b x e), s)

uncached-Stored :
    (file : MdictFile) (index live : ℕ) (b : MemoryBudget)
    → IsSound b live
    → Stored (block_contents file index) live (decode_record_block_uncached file index b)
unfolding Stored decode_record_block_uncached block_contents lift ◌>>=◌ with_retained with_reserved
uncached-Stored file index live b s =
    elim (Result-cases (
      ok_or (get_elem? file.record_blocks index)
        (invalid_format "record block index out of range"))) [
          | inr (e, h) ↦ rw h (inl refl, s)
          | inl (block, h) ↦
              elim (Result-cases (checked_usize block.comp_size "record block compressed length")) [
                | inr (e, h') ↦ rw (h, h') (inl refl, s)
                | inl (comp_size, h') ↦
                    elim (Result-cases
                      (checked_usize block.decomp_size "record block decompressed length")) [
                        | inr (e, h'') ↦ rw (h, h', h'') (inl refl, s)
                        | inl (size, h'') ↦
                            rw (h, h', h'')
                              (retained-Stored (fetch_block file block comp_size size) size live _ b
                                (claim size b) refl s
                                (λ b' s'.
                                  reserved-Fetched (fetch_block file block comp_size size) size
                                    (live + size) comp_size _ b' (claim comp_size b') refl s'
                                    (λ b'' s''.
                                      body-Fetched (fetch_block file block comp_size size) size _
                                        b'' s'')))
                      ]
              ]
        ]

-- What the cache holds is what decoding that block returns.
abbrev pub Reflects : MdictFile → CachedBlock → Type 0
Reflects file none = Unit {0}
Reflects file (some (index, ready block)) = block_contents file index ≡ ok block.bytes
Reflects file (some (index, failed failure)) = block_contents file index ≡ err (replay failure)

-- The cache is right, and the budget accounts for it and for `rest` bytes elsewhere.
pub record IsConsistent (file : MdictFile) (rest : ℕ) (s : ReadState) : Type 0 where
  pub reflects : Reflects file s.record_block_cache
  pub sound : IsSound s.memory (rest + held s.record_block_cache)

Answers : MdictFile → ℕ → ℕ → Result (List ℕ) × ReadState → Type 0
Answers file index rest (r, s) = Matches (block_contents file index) r × IsConsistent file rest s

budget_zero : (b : MemoryBudget) (rest : ℕ) → IsSound b rest → IsSound b (rest + 0)
budget_zero b rest s = omega arith

-- An error that may be kept is not the budget's.
settled :
    {expected : Result (List ℕ)} {e e' : Error}
    → (expected ≡ err e) ⊎ IsBudgetError e
    → e' ≡ e
    → ¬ IsTransient e
    → expected ≡ err e'
settled (inl h) same stays = h ∙ ap err (sym same)
settled (inr (value, max, h)) same stays = absurd (stays (subst IsTransient (sym h) refl))

captured :
    (file : MdictFile) (index rest : ℕ) (e : Error) (b : MemoryBudget)
    (c : Option CachedFailure × MemoryBudget)
    → capture e b ≡ c
    → (block_contents file index ≡ err e) ⊎ IsBudgetError e
    → IsSound b rest
    → Answers file index rest (remember_failure file index e c)
unfolding Answers
captured file index rest e b (none, b') h m s = (
  m,
  record {
    reflects = tt;
    sound =
        (let same : b' ≡ b = capture-none e b b' h in
          subst (λ t. IsSound t (rest + 0)) (sym same) (budget_zero b rest s));
  },
)
captured file index rest e b (some f, b') h m s =
    let kept : (replay f ≡ e) × (¬ IsTransient e) × IsSound b' (rest + f.reserved) =
      capture-replay e b rest f b' s h in
    (m, record { reflects = settled m kept.0 kept.1; sound = kept.2 })

remembered :
    (file : MdictFile) (index rest : ℕ) (p : Result DecodedRecordBlock × MemoryBudget)
    → Stored (block_contents file index) rest p
    → Answers file index rest (remember file index p)
unfolding Answers Stored
remembered file index rest (ok d, b) h = (h.0, record { reflects = h.0; sound = h.1 })
remembered file index rest (err e, b) h = captured file index rest e b (capture e b) refl h.0 h.1

miss-Answers :
    (file : MdictFile) (index rest : ℕ) (s : ReadState)
    → IsConsistent file rest s
    → Answers file index rest (decode_miss file index s)
unfolding decode_miss
miss-Answers file index rest s good = remembered file index rest _ (
    uncached-Stored file index rest _
      (release-IsSound (held s.record_block_cache) rest s.memory good.sound).0)

hit-Answers :
    (file : MdictFile) (index rest : ℕ) (v : CachedValue DecodedRecordBlock) (s : ReadState)
    → Reflects file (some (index, v))
    → IsConsistent file rest s
    → Answers file index rest (cached_result file v, s)
unfolding Answers
hit-Answers file index rest (ready block) s h good = (h, good)
hit-Answers file index rest (failed failure) s h good = (inl h, good)

cached-Answers :
    (file : MdictFile) (index rest : ℕ) (s : ReadState) (c : CachedBlock)
    → Reflects file c
    → IsConsistent file rest s
    → Answers file index rest (decode_cached file index s c)
cached-Answers file index rest s none h good = miss-Answers file index rest s good
cached-Answers file index rest s (some (k, v)) h good = elim (Bool-cases (k == index)) [
  | inl e ↦ rw e (
      hit-Answers file index rest v s
        (subst (λ i. Reflects file (some (i, v))) ((==_iff k index).0 e) h) good)
  | inr e ↦ rw e (miss-Answers file index rest s good)
]

-- In a consistent state, `decode_record_block` returns exactly what reading and decoding the block
-- returns, whatever the cache holds, unless the memory budget is exhausted; and the state that it
-- leaves is consistent again: the cache is right and the budget accounts for it.
pub decode_record_block-Matches :
    (file : MdictFile) (index rest : ℕ) (s : ReadState)
    → IsConsistent file rest s
    → Matches (block_contents file index) (decode_record_block file index s).0
      × IsConsistent file rest (decode_record_block file index s).1
unfolding Answers decode_record_block
decode_record_block-Matches file index rest s good =
    cached-Answers file index rest s s.record_block_cache good.reflects good
