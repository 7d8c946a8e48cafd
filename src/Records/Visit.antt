-- ===== src/Records/Visit.antt =====
-- core/records.rs: `visit_record_span` and `read_record_span`, over any block decoder.
use mdictlib.Prelude.{ℕ, zero, suc, ◌-◌, ltb, get_elem?, List, if◌then◌else◌}
use mdictlib.Error.{Result, ok, err, ok_or, invalid_format}
use mdictlib.Effect.{Eff, lift, ◌>>=◌}
use mdictlib.Descriptors.{RecordBlockDescriptor, find_record_block}
use mdictlib.Records.{validate_record_span, chunk_of, advance}

module _ {S A : Type 0} (blocks : List RecordBlockDescriptor)
    (decode_record_block : ℕ → Eff S (List ℕ)) (visitor : List ℕ → A → Result A) where
  -- One round of the `while`: what the visitor made of its chunk, and the next cursor.
  unfoldable pub visit_round : ℕ → ℕ → A → Eff S (A × ℕ)
  visit_round cursor end acc = do
    block_index ← lift (
        ok_or (find_record_block blocks cursor)
          (invalid_format "record offset not covered by record blocks"))
    block ←
        lift
          (ok_or (get_elem? blocks block_index) (invalid_format "record block index out of range"))
    decoded ← decode_record_block block_index
    (chunk, local_end) ← lift (chunk_of block cursor end decoded)
    acc' ← lift (visitor chunk acc)
    next ← lift (advance block cursor local_end)
    lift (ok (acc', next))

  -- The `while`. A round that succeeds moves the cursor, so `end - cursor` rounds are enough.
  unfoldable pub visit_loop : ℕ → ℕ → ℕ → A → Eff S A
  visit_loop zero cursor end acc =
      if ltb cursor end
      then lift (err (invalid_format "record traversal made no progress"))
      else lift (ok acc)
  visit_loop (suc fuel) cursor end acc =
      if ltb cursor end
      then (do (acc', next) ← visit_round cursor end acc; visit_loop fuel next end acc')
      else lift (ok acc)

  unfoldable pub visit_record_span : ℕ → ℕ → ℕ → A → Eff S A
  visit_record_span total start end acc = do
    _ ← lift (validate_record_span total start end)
    visit_loop (end - start) start end acc
