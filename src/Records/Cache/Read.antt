-- ===== src/Records/Cache/Read.antt =====
-- read_record_span, through the cache, against the decoded record stream.
use mdictlib.Budget.Implements.{IsBudgetError, claim_err}
use mdictlib.Prelude.{
  ℕ, ◌+◌, ◌-◌, ◌≤◌, some, List, [], get_elem?, slice, ◌≡◌, refl, ◌∙◌, inl, inr, arith,
}
use mathlib.Core.Path.{subst}
use mdictlib.Error.{Error, Result, ok, err}
use mdictlib.Limits.{u64_max}
use mdictlib.Budget.{MemoryBudget, claim, release}
use mdictlib.Budget.Laws.{IsSound, claim-IsSound, release-IsSound}
use mdictlib.Descriptors.Verify.{CoversRecords}
use mdictlib.Records.{materialized_record_span_len}
use mdictlib.Records.File.{MdictFile, block_contents}
use mdictlib.Records.Stream.{Contents, stream}
use mdictlib.Records.Spans.{IsDecoder, Outcome, visit_record_span-Outcome}
use mdictlib.Records.Cache.{
  ReadState, held, decode_record_block, read_record_span, span_claimed, end_span,
}
use mdictlib.Records.Cache.Transparent.{IsConsistent, Matches, decode_record_block-Matches}

-- Every block of the file can be read and decoded, to the contents `cs`.
pub record IsReadable (file : MdictFile) (cs : List (List ℕ)) : Type 0 where
  pub covers : CoversRecords file.record_blocks 0 file.total_decoded_record_len
  pub contents : Contents file.record_blocks cs
  pub decodes : (k : ℕ) (c : List ℕ) → get_elem? cs k ≡ some c → block_contents file k ≡ ok c

-- The span was read, or the memory budget is exhausted; the state is consistent.
abbrev pub ReadOutcome :
    MdictFile → List (List ℕ) → ℕ → ℕ → ℕ → Result (List ℕ) × ReadState → Type 0
ReadOutcome file cs start end rest (ok out, s) =
    (out ≡ slice start end (stream cs)) × IsConsistent file rest s
ReadOutcome file cs start end rest (err e, s) = IsBudgetError e × IsConsistent file rest s

returned :
    {expected : Result (List ℕ)} (r : Result (List ℕ)) (c bytes : List ℕ)
    → Matches expected r
    → expected ≡ ok c
    → r ≡ ok bytes
    → bytes ≡ c
returned (ok b) c bytes m e h = cc
returned (err x) c bytes m e h = cc

error_same : {x y : Error} → ◌≡◌ {A = Result (List ℕ)} (err y) (err x) → x ≡ y
error_same h = cc

raised :
    {expected : Result (List ℕ)} (r : Result (List ℕ)) (c : List ℕ) (x : Error)
    → Matches expected r
    → expected ≡ ok c
    → r ≡ err x
    → IsBudgetError x
raised (ok b) c x m e h = cc
raised (err y) c x (inl m) e h = cc
raised (err y) c x (inr m) e h = (m.0, m.1, error_same h ∙ m.2)

decoder :
    (file : MdictFile) (cs : List (List ℕ)) (rest : ℕ)
    → IsReadable file cs
    → IsDecoder (decode_record_block file) cs (IsConsistent file rest)
decoder file cs rest readable = record {
  keeps = λ k s good. (decode_record_block-Matches file k rest s good).1;
  returns = λ k s c bytes good at_k e.
      returned _ c bytes (decode_record_block-Matches file k rest s good).0
        (readable.decodes k c at_k) e;
}

span_len-ok :
    (total limit start end : ℕ)
    → start ≤ end
    → end ≤ total
    → total ≤ u64_max
    → limit ≤ u64_max
    → end - start ≤ limit
    → materialized_record_span_len total limit start end ≡ ok (end - start)
unfolding materialized_record_span_len
span_len-ok total limit start end p q t m l = ground arith

module _ (file : MdictFile) (cs : List (List ℕ)) (readable : IsReadable file cs)
    (start end rest : ℕ) where
  ended :
      (len : ℕ) (s : ReadState)
      → IsConsistent file (rest + len) s
      → IsConsistent file rest (record s { memory = release len s.memory })
  ended len s good = record {
    reflects = good.reflects;
    sound =
        (release-IsSound len (rest + held s.record_block_cache) s.memory
          (subst (λ n. IsSound s.memory n) (omega arith) good.sound)).0;
  }

  span_ended :
      (len : ℕ) (r : Result (List ℕ) × ReadState)
      → Outcome file.record_blocks cs file.total_decoded_record_len readable.covers
          readable.contents
          (decode_record_block file)
          (IsConsistent file (rest + len))
          (decoder file cs (rest + len) readable)
          []
          start
          end
          r
      → ReadOutcome file cs start end rest (end_span file len r)
  span_ended len (ok out, s) h = (h.0, ended len s h.1)
  span_ended len (err e, s) ((k, c, t, at_k, good, raised_by), held_by) = (
    raised _ c e (decode_record_block-Matches file k (rest + len) t good).0
        (readable.decodes k c at_k) raised_by,
    ended len s held_by,
  )

  span_claimed_reads :
      (s : ReadState) (claimed : Result MemoryBudget)
      → claim (end - start) s.memory ≡ claimed
      → start ≤ end
      → end ≤ file.total_decoded_record_len
      → IsConsistent file rest s
      → ReadOutcome file cs start end rest (span_claimed file start end (end - start) s claimed)
  span_claimed_reads s (err e) h p q good = (claim_err (end - start) s.memory e h, good)
  span_claimed_reads s (ok b) h p q good =
      let claimed : IsSound b (rest + held s.record_block_cache + (end - start)) =
        (claim-IsSound (end - start) (rest + held s.record_block_cache) s.memory good.sound h).0 in
      span_ended (end - start) _ (
        visit_record_span-Outcome file.record_blocks cs file.total_decoded_record_len
          readable.covers readable.contents (decode_record_block file)
          (IsConsistent file (rest + (end - start)))
          (decoder file cs (rest + (end - start)) readable) start end (record s { memory = b }) p q
          (record {
            reflects = good.reflects;
            sound = subst (λ n. IsSound b n) (omega arith) claimed;
          }))

  -- Of a readable file, a span inside the decoded stream and within the limit is read as exactly the
  -- bytes of the stream between its ends, through the cache, unless the memory budget is exhausted;
  -- on both ways the cache stays right and every byte that was reserved for the read is given back.
  pub read_record_span-ReadOutcome :
      (s : ReadState)
      → start ≤ end
      → end ≤ file.total_decoded_record_len
      → file.total_decoded_record_len ≤ u64_max
      → file.limits.materialized_record_bytes ≤ u64_max
      → end - start ≤ file.limits.materialized_record_bytes
      → IsConsistent file rest s
      → ReadOutcome file cs start end rest (read_record_span file start end s)
  unfolding read_record_span
  read_record_span-ReadOutcome s p q t m l good =
      rw
        (span_len-ok file.total_decoded_record_len file.limits.materialized_record_bytes start end p
          q t m l)
        (span_claimed_reads s (claim (end - start) s.memory) refl p q good)
