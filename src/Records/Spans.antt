-- ===== src/Records/Spans.antt =====
-- Reading a span returns that part of the decoded record stream, and fails only where the block
-- decoder does.
use mathlib.Core.Path.{subst, ap₂}
use mdictlib.Prelude.{
  ℕ, zero, suc, ◌+◌, ◌-◌, ◌≤◌, ◌<◌, min, ltb, get_elem?, some, List, [], ◌∷◌, ◌++◌, length, slice,
  append_assoc, append-nil, ◌≡◌, refl, sym, ap, ◌∙◌, arith, dec_lt, lt→ltb, false,
}
use mdictlib.Error.{Error, Result, ok, err}
use mdictlib.Limits.{u64_max}
use mdictlib.Effect.{Eff, lift, ◌>>=◌, resume}
use mdictlib.Descriptors.{RecordBlockDescriptor, find_record_block}
use mdictlib.Descriptors.Search.{find_record_block-some, get_elem?-bounds, Holds}
use mdictlib.Descriptors.Verify.{CoversRecords}
use mdictlib.Records.{validate_record_span, chunk_of, advance}
use mdictlib.Records.Visit.{visit_round, visit_loop, visit_record_span}
use mdictlib.Records.Stream.{Contents, stream, slice-stream, slice_join}

-- `|chunk| output.extend_from_slice(chunk)`
abbrev pub extend : List ℕ → List ℕ → Result (List ℕ)
extend chunk output = ok (output ++ chunk)

-- A block decoder: it returns the contents of a block or an error, and keeps its state good.
pub record IsDecoder {S : Type 0} (decode : ℕ → Eff S (List ℕ)) (cs : List (List ℕ))
    (IsGood : S → Type 0) : Type 0 where
  pub keeps : (k : ℕ) (s : S) → IsGood s → IsGood (decode k s).1
  pub returns :
      (k : ℕ) (s : S) (c bytes : List ℕ)
      → IsGood s
      → get_elem? cs k ≡ some c
      → (decode k s).0 ≡ ok bytes
      → bytes ≡ c

content_at :
    (bs : List RecordBlockDescriptor) (cs : List (List ℕ)) (k : ℕ) (b : RecordBlockDescriptor)
    → Contents bs cs
    → get_elem? bs k ≡ some b
    → (c : List ℕ) × (get_elem? cs k ≡ some c) × (length c ≡ b.decomp_size)
content_at [] cs k b h e = cc
content_at (x ∷ bs) [] k b h e = absurd h
content_at (x ∷ bs) (y ∷ cs) zero b h e = (y, refl, ground arith)
content_at (x ∷ bs) (y ∷ cs) (suc k) b h e = content_at bs cs k b h.1 e

-- The end of a round: the end of the block or of the span.
abbrev stop_of : RecordBlockDescriptor → ℕ → ℕ
stop_of b end = min end (b.decomp_offset + b.decomp_size)

chunk_of-ok :
    (b : RecordBlockDescriptor) (cursor end : ℕ) (c : List ℕ)
    → Holds b cursor
    → cursor < end
    → b.decomp_offset + b.decomp_size ≤ u64_max
    → length c ≡ b.decomp_size
    → chunk_of b cursor end c
      ≡ ok (
        slice (cursor - b.decomp_offset) (stop_of b end - b.decomp_offset) c,
        stop_of b end - b.decomp_offset,
      )
unfolding chunk_of
chunk_of-ok b cursor end c h p m e = ground arith

advance-ok :
    (b : RecordBlockDescriptor) (cursor end : ℕ)
    → Holds b cursor
    → cursor < end
    → b.decomp_offset + b.decomp_size ≤ u64_max
    → advance b cursor (stop_of b end - b.decomp_offset) ≡ ok (stop_of b end)
unfolding advance
advance-ok b cursor end h p m = ground arith

ltb-false : (a b : ℕ) → ¬ (a < b) → ltb a b ≡ false
ltb-false a b h = ground arith

pub validate_record_span-ok :
    (total start end : ℕ)
    → start ≤ end
    → end ≤ total
    → validate_record_span total start end ≡ ok (end - start)
unfolding validate_record_span
validate_record_span-ok total start end p q = ground arith

module _ {S : Type 0} (bs : List RecordBlockDescriptor) (cs : List (List ℕ)) (total : ℕ)
    (covers : CoversRecords bs 0 total) (contents : Contents bs cs)
    (decode : ℕ → Eff S (List ℕ)) where
  module _ (k cursor end : ℕ) (b : RecordBlockDescriptor) (c acc : List ℕ) (s s' : S)
      (found : find_record_block bs cursor ≡ some k) (block : get_elem? bs k ≡ some b) where
    round_err :
        (e : Error)
        → decode k s ≡ (err e, s')
        → visit_round bs decode extend cursor end acc s ≡ (err e, s')
    unfolding visit_round ◌>>=◌ lift
    round_err e d = rw (found, block, d)

    round_ok :
        Holds b cursor
        → cursor < end
        → b.decomp_offset + b.decomp_size ≤ u64_max
        → length c ≡ b.decomp_size
        → decode k s ≡ (ok c, s')
        → visit_round bs decode extend cursor end acc s ≡ (
          ok (
            acc ++ slice (cursor - b.decomp_offset) (stop_of b end - b.decomp_offset) c,
            stop_of b end,
          ),
          s',
        )
    unfolding visit_round ◌>>=◌ lift
    round_ok h p m size d =
        rw (found, block, d, chunk_of-ok b cursor end c h p m size, advance-ok b cursor end h p m)

  module _ (IsGood : S → Type 0) (decoder : IsDecoder decode cs IsGood) where
    -- The decoder returned this error for a block with contents.
    abbrev pub Raised : Error → Type 0
    Raised e =
        (k : ℕ) × (c : List ℕ) × (s : S) × (get_elem? cs k ≡ some c)
        × IsGood s
        × ((decode k s).0 ≡ err e)

    -- The output is extended by the span, or the decoder failed; the state stays good.
    abbrev pub Outcome : List ℕ → ℕ → ℕ → Result (List ℕ) × S → Type 0
    Outcome acc cursor end (ok out, s) = (out ≡ acc ++ slice cursor end (stream cs)) × IsGood s
    Outcome acc cursor end (err e, s) = Raised e × IsGood s

    Outcome-shift :
        (acc : List ℕ) (cursor stop end : ℕ) (r : Result (List ℕ) × S)
        → cursor ≤ stop
        → stop ≤ end
        → Outcome (acc ++ slice cursor stop (stream cs)) stop end r
        → Outcome acc cursor end r
    Outcome-shift acc cursor stop end (err e, s) p q h = h
    Outcome-shift acc cursor stop end (ok out, s) p q h = (
      h.0
          ∙ append_assoc acc (slice cursor stop (stream cs)) (slice stop end (stream cs))
          ∙ ap (λ t. acc ++ t) (slice_join cursor stop end (stream cs) p q),
      h.1,
    )

    round-Outcome :
        (fuel cursor end k : ℕ) (b : RecordBlockDescriptor) (c acc : List ℕ) (s : S)
        (r : Result (List ℕ) × S)
        → decode k s ≡ r
        → cursor < end
        → end ≤ total
        → find_record_block bs cursor ≡ some k
        → get_elem? bs k ≡ some b
        → get_elem? cs k ≡ some c
        → Holds b cursor
        → length c ≡ b.decomp_size
        → IsGood s
        → ((acc' : List ℕ) (s' : S)
            → IsGood s'
            → Outcome acc'
                (stop_of b end)
                end
                (visit_loop bs decode extend fuel (stop_of b end) end acc' s'))
        → Outcome acc cursor end (
            resume
              (λ p. visit_loop bs decode extend fuel p.1 end p.0)
              (visit_round bs decode extend cursor end acc s))
    round-Outcome fuel cursor end k b c acc s (err e, s') d p q found block content holds size good
          next =
        rw (round_err k cursor end b c acc s s' found block e d) (
          (k, c, s, content, good, ap (λ r. r.0) d),
          subst IsGood (ap (λ r. r.1) d) (decoder.keeps k s good),
        )
    round-Outcome fuel cursor end k b c acc s (ok bytes, s') d p q found block content holds size
          good next =
        let same : bytes ≡ c = decoder.returns k s c bytes good content (ap (λ r. r.0) d) in
        let good' : IsGood s' = subst IsGood (ap (λ r. r.1) d) (decoder.keeps k s good) in
        let bound = get_elem?-bounds bs 0 total k b covers block in
        let d' : decode k s ≡ (ok c, s') = d ∙ ap (λ t. (ok t, s')) same in
        let stop = stop_of b end in
        let part : slice (cursor - b.decomp_offset) (stop - b.decomp_offset) c
            ≡ slice cursor stop (stream cs) =
          sym (
            slice-stream bs cs 0 total k cursor stop b c covers contents block content (omega arith)
              (omega arith) (omega arith))
          ∙ ap₂ (λ i j. slice i j (stream cs)) (omega arith) (omega arith) in
        rw (round_ok k cursor end b c acc s s' found block holds p (omega arith) size d') (
          Outcome-shift acc cursor stop end _ (omega arith) (omega arith)
            (rw part (next (acc ++ slice cursor stop (stream cs)) s' good')))

    ended :
        (cursor end : ℕ) (acc : List ℕ) → end ≤ cursor → acc ≡ acc ++ slice cursor end (stream cs)
    ended cursor end acc h =
        let none_left : end - cursor ≡ 0 = omega arith in rw (none_left, append-nil)

    visit_loop-Outcome :
        (fuel cursor end : ℕ) (acc : List ℕ) (s : S)
        → cursor ≤ end
        → end ≤ total
        → end - cursor ≤ fuel
        → IsGood s
        → Outcome acc cursor end (visit_loop bs decode extend fuel cursor end acc s)
    unfolding visit_loop lift ◌>>=◌
    visit_loop-Outcome zero cursor end acc s p q f good =
        rw (ltb-false cursor end (omega arith)) (ended cursor end acc (omega arith), good)
    visit_loop-Outcome (suc fuel) cursor end acc s p q f good = elim (dec_lt cursor end) [
      | no done ↦ rw (ltb-false cursor end done) (ended cursor end acc (omega arith), good)
      | yes more ↦
          let found = find_record_block-some bs total cursor covers (omega arith) in
          let content = content_at bs cs found.0 found.1 contents found.3 in
          rw (lt→ltb cursor end more) (
            round-Outcome fuel cursor end found.0 found.1 content.0 acc s (decode found.0 s) refl
              more q found.2 found.3 content.1 found.4 content.2 good
              (λ acc' s' good'.
                visit_loop-Outcome fuel (stop_of found.1 end) end acc' s' (omega arith) q
                  (omega arith) good'))
    ]

    -- A valid span is visited completely: the chunks are together the part of the decoded stream
    -- between its ends, unless the block decoder fails, and then its error is returned.
    pub visit_record_span-Outcome :
        (start end : ℕ) (s : S)
        → start ≤ end
        → end ≤ total
        → IsGood s
        → Outcome [] start end (visit_record_span bs decode extend total start end [] s)
    unfolding visit_record_span ◌>>=◌ lift
    visit_record_span-Outcome start end s p q good =
        rw (validate_record_span-ok total start end p q)
          (visit_loop-Outcome (end - start) start end [] s p q (omega arith) good)
