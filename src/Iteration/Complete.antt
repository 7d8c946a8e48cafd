-- ===== src/Iteration/Complete.antt =====
-- The iterator yields the keys of all blocks in their order, and then ends.
use mdictlib.Prelude.{
  ℕ, zero, suc, ◌+◌, ◌-◌, ◌≤◌, ◌<◌, true, false, Option, none, some, List, [], ◌∷◌, ◌++◌, length,
  drop, get_elem?, leb, if◌then◌else◌, dec_lt, ◌≡◌, refl, sym, ap, map, arith,
}
use mathlib.Core.Path.{subst}
use mdictlib.Error.{Result, ok}
use mdictlib.Limits.{u64_max, checked_add}
use mdictlib.Descriptors.{KeyBlockDescriptor}
use mdictlib.KeyRows.{DecodedKeyRow}
use mdictlib.KeyEntries.{KeyEntry}
use mdictlib.Iteration.{
  KeyIter, new_iter, IterStep, start_of, key_of, item, emit, load_block, next_loop, next,
}

-- The rows of a block, numbered from `start`.
abbrev pub numbered : ℕ → List DecodedKeyRow → List KeyEntry
numbered start [] = []
numbered start (row ∷ rows) = record { ordinal = start; key = row.key } ∷ numbered (suc start) rows

-- `count` blocks from the `k`th on, whose rows are `contents`.
abbrev pub listing : List KeyBlockDescriptor → (ℕ → List DecodedKeyRow) → ℕ → ℕ → List KeyEntry
listing blocks contents k zero = []
listing blocks contents k (suc count) =
    numbered (start_of (get_elem? blocks k)) (contents k) ++ listing blocks contents (suc k) count

module _ (decode : ℕ → Result (List DecodedKeyRow)) (blocks : List KeyBlockDescriptor)
    (contents : ℕ → List DecodedKeyRow) where
  -- What is left for an iterator in the block `k` to yield.
  abbrev pub left : KeyIter → List KeyEntry
  left it = elim it.current_block [
    | none ↦ listing blocks contents it.block_index (length blocks - it.block_index)
    | some rows ↦
        numbered (start_of (get_elem? blocks it.block_index) + it.entry_index)
          (drop it.entry_index rows)
        ++ listing blocks contents (suc it.block_index) (length blocks - suc it.block_index)
  ]

  -- A block at hand is the one that the index names.
  abbrev pub IsCurrent : KeyIter → Type 0
  IsCurrent it = elim it.current_block [
    | none ↦ Unit {0}
    | some rows ↦ (rows ≡ contents it.block_index) × (it.block_index < length blocks)
  ]

  -- The next entry is yielded and leaves the others, or there is none and the iterator is done.
  abbrev pub Yields : List KeyEntry → IterStep → Type 0
  Yields [] s = (s.0 ≡ none) × (s.1.done ≡ true)
  Yields (e ∷ es) s = (s.0 ≡ some (ok e)) × (s.1.done ≡ false) × IsCurrent s.1 × (left s.1 ≡ es)

drop-some {ℓ} :
    {A : Type ℓ} (xs : List A) (i : ℕ)
    → i < length xs
    → (x : A) × (get_elem? xs i ≡ some x) × (drop i xs ≡ x ∷ drop (suc i) xs)
drop-some [] i p = absurd (omega arith)
drop-some (x ∷ xs) zero p = (x, refl, refl)
drop-some (x ∷ xs) (suc i) p = drop-some xs i (omega arith)

drop-all {ℓ} : {A : Type ℓ} (xs : List A) (i : ℕ) → length xs ≤ i → drop i xs ≡ []
drop-all [] zero p = refl
drop-all [] (suc i) p = refl
drop-all (x ∷ xs) zero p = absurd (omega arith)
drop-all (x ∷ xs) (suc i) p = drop-all xs i (omega arith)

sub-zero : (m n : ℕ) → m ≤ n → m - n ≡ 0
sub-zero m n p = omega arith

sub-suc : (m n : ℕ) → n < m → m - n ≡ suc (m - suc n)
sub-suc m n p = omega arith

plus_one : (n : ℕ) → n + 1 ≡ suc n
plus_one n = omega arith

add_suc : (m n : ℕ) → m + (n + 1) ≡ suc (m + n)
add_suc m n = omega arith

add_zero : (m : ℕ) → m + 0 ≡ m
add_zero m = omega arith

minus_zero : (m : ℕ) → m - 0 ≡ m
minus_zero m = omega arith

leb-true : (m n : ℕ) → m ≤ n → leb m n ≡ true
leb-true m n p = ground arith

leb-false : (m n : ℕ) → n < m → leb m n ≡ false
leb-false m n p = ground arith

module _ (decode : ℕ → Result (List DecodedKeyRow)) (blocks : List KeyBlockDescriptor)
    (contents : ℕ → List DecodedKeyRow)
    (reads : (k : ℕ)
      → k < length blocks
      → (decode k ≡ ok (contents k))
        × (start_of (get_elem? blocks k) + length (contents k) ≤ u64_max)) where
  at_block : ℕ → ℕ → Option (List DecodedKeyRow) → KeyIter
  at_block k i current = record {
    block_index = k;
    entry_index = i;
    current_block = current;
    done = false;
  }

  item-ok :
      (k i : ℕ) (row : DecodedKeyRow)
      → k < length blocks
      → i < length (contents k)
      → get_elem? (contents k) i ≡ some row
      → item decode blocks k i (contents k)
        ≡ ok (record { ordinal = start_of (get_elem? blocks k) + i; key = row.key })
  unfolding item checked_add key_of
  item-ok k i row p q e = let bound = (reads k p).1 in rw e (ground arith)

  -- A round with the rows of the block at hand.
  round-Yields :
      (k i : ℕ) (further : IterStep)
      → k < length blocks
      → Yields decode blocks contents
          (listing blocks contents (suc k) (length blocks - suc k))
          further
      → Yields decode blocks contents
          (numbered (start_of (get_elem? blocks k) + i) (drop i (contents k))
            ++ listing blocks contents (suc k) (length blocks - suc k))
          (if leb (length (contents k)) i
            then further
            else emit decode blocks
                (at_block k (i + 1) (some (contents k)))
                (item decode blocks k i (contents k)))
  unfolding emit at_block
  round-Yields k i further p h = elim (dec_lt i (length (contents k))) [
    | yes inside ↦
        let (row, at, dropped) = drop-some (contents k) i inside in
        rw (dropped, leb-false (length (contents k)) i (omega arith), item-ok k i row p inside at)
          (refl, refl, (refl, p), rw (add_suc (start_of (get_elem? blocks k)) i, plus_one i) refl)
    | no past ↦
        rw (drop-all (contents k) i (omega arith), leb-true (length (contents k)) i (omega arith)) h
  ]

  listing-past : (k : ℕ) → length blocks ≤ k → listing blocks contents k (length blocks - k) ≡ []
  listing-past k p = rw (sub-zero (length blocks) k p) refl

  listing-block :
      (k : ℕ)
      → k < length blocks
      → listing blocks contents k (length blocks - k)
        ≡ numbered (start_of (get_elem? blocks k) + 0) (drop 0 (contents k))
          ++ listing blocks contents (suc k) (length blocks - suc k)
  listing-block k p =
      rw (sub-suc (length blocks) k p) (rw (add_zero (start_of (get_elem? blocks k))) refl)

  loop-Yields :
      (fuel k i : ℕ) (current : Option (List DecodedKeyRow))
      → length blocks - k < fuel
      → IsCurrent decode blocks contents (at_block k i current)
      → Yields decode blocks contents
          (left decode blocks contents (at_block k i current))
          (next_loop decode blocks fuel (at_block k i current))
  unfolding next_loop load_block at_block
  loop-Yields zero k i current p h = absurd (omega arith)
  loop-Yields (suc fuel) k i none p h = elim (dec_lt k (length blocks)) [
    | yes inside ↦
        rw (leb-false (length blocks) k inside, (reads k inside).0, listing-block k inside)
          (round-Yields k 0 (next_loop decode blocks fuel (at_block (k + 1) 0 none)) inside
            (rw (plus_one k) (loop-Yields fuel (suc k) 0 none (omega arith) tt)))
    | no past ↦
        rw (leb-true (length blocks) k (omega arith), listing-past k (omega arith)) (refl, refl)
  ]
  loop-Yields (suc fuel) k i (some rows) p h =
      rw (h.0, leb-false (length blocks) k h.1)
        (round-Yields k i (next_loop decode blocks fuel (at_block (k + 1) i none)) h.1
          (rw (plus_one k) (loop-Yields fuel (suc k) i none (omega arith) tt)))

  not-done :
      (it : KeyIter)
      → it.done ≡ false
      → it ≡ at_block it.block_index it.entry_index it.current_block
  unfolding at_block
  not-done it d =
      ap
        (λ done. record {
          block_index = it.block_index;
          entry_index = it.entry_index;
          current_block = it.current_block;
          done = done;
        })
        d

  next-Yields :
      (k i : ℕ) (current : Option (List DecodedKeyRow))
      → IsCurrent decode blocks contents (at_block k i current)
      → Yields decode blocks contents
          (left decode blocks contents (at_block k i current))
          (next decode blocks (at_block k i current))
  unfolding next at_block
  next-Yields k i current h = loop-Yields (suc (length blocks - k)) k i current (omega arith) h

  going-Yields :
      (it : KeyIter)
      → it.done ≡ false
      → IsCurrent decode blocks contents it
      → Yields decode blocks contents (left decode blocks contents it) (next decode blocks it)
  going-Yields it d h =
      subst
        (λ j.
          IsCurrent decode blocks contents j
          → Yields decode blocks contents (left decode blocks contents j) (next decode blocks j))
        (sym (not-done it d)) (next-Yields it.block_index it.entry_index it.current_block) h

-- The items that `collect` takes, and the state behind them; at most `fuel` calls of `next`.
abbrev pub collect :
    (ℕ → Result (List DecodedKeyRow))
    → List KeyBlockDescriptor
    → ℕ
    → KeyIter
    → List (Result KeyEntry)
collect decode blocks zero it = []
collect decode blocks (suc fuel) it =
    let step = next decode blocks it in
    let rest = collect decode blocks fuel step.1 in elim step.0 [ none ↦ [] | some r ↦ r ∷ rest ]

collect-left :
    (decode : ℕ → Result (List DecodedKeyRow)) (blocks : List KeyBlockDescriptor)
    (contents : ℕ → List DecodedKeyRow)
    (reads : (k : ℕ)
      → k < length blocks
      → (decode k ≡ ok (contents k))
        × (start_of (get_elem? blocks k) + length (contents k) ≤ u64_max))
    (es : List KeyEntry) (fuel : ℕ) (it : KeyIter)
    → Yields decode blocks contents es (next decode blocks it)
    → length es < fuel
    → collect decode blocks fuel it ≡ map ok es
collect-left decode blocks contents reads es zero it h p = absurd (omega arith)
collect-left decode blocks contents reads [] (suc fuel) it h p = rw (collect, h.0) refl
collect-left decode blocks contents reads (e ∷ es) (suc fuel) it h p =
    let step = next decode blocks it in
    let yields =
      subst (λ rest. Yields decode blocks contents rest (next decode blocks step.1)) h.3
        (going-Yields decode blocks contents reads step.1 h.1 h.2) in
    rw (collect, h.0, collect-left decode blocks contents reads es fuel step.1 yields (omega arith))
      refl

-- If every block can be decoded, and the ordinals fit, then the iterator yields the keys of all blocks
-- in the order of the blocks and of the rows, each with the ordinal that its block's start and its place
-- give it, and ends behind the last one.
pub collect-new_iter :
    (decode : ℕ → Result (List DecodedKeyRow)) (blocks : List KeyBlockDescriptor)
    (contents : ℕ → List DecodedKeyRow) (fuel : ℕ)
    → ((k : ℕ)
        → k < length blocks
        → (decode k ≡ ok (contents k))
          × (start_of (get_elem? blocks k) + length (contents k) ≤ u64_max))
    → length (listing blocks contents 0 (length blocks)) < fuel
    → collect decode blocks fuel new_iter ≡ map ok (listing blocks contents 0 (length blocks))
collect-new_iter decode blocks contents fuel reads p =
    collect-left decode blocks contents reads (listing blocks contents 0 (length blocks)) fuel
      new_iter
      (subst
        (λ count.
          Yields decode blocks contents (listing blocks contents 0 count)
            (next decode blocks new_iter))
        (minus_zero (length blocks)) (going-Yields decode blocks contents reads new_iter refl tt))
      p
