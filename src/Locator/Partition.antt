-- ===== src/Locator/Partition.antt =====
-- The partition point separates the elements that satisfy a test from those that do not.
use mdictlib.Prelude.{
  lt→ltb, ℕ, zero, suc, ◌+◌, ◌-◌, ◌/◌, ◌≤◌, ◌<◌, Bool, Bool-cases, true, false, List, [], ◌∷◌, some,
  length, get_elem?, dec_lt, ltb, ◌≡◌, refl, arith, inl, inr,
}
use mdictlib.Locator.{partition_loop, partition_point}

module _ (test : ℕ → Bool) (xs : List ℕ)
    -- The test is true on a first part of the list only.
    (partitioned : (i j x y : ℕ)
      → i < j
      → get_elem? xs i ≡ some x
      → get_elem? xs j ≡ some y
      → test y ≡ true
      → test x ≡ true) where
  element : (ys : List ℕ) (i : ℕ) → i < length ys → (x : ℕ) × (get_elem? ys i ≡ some x)
  element [] i h = absurd (omega arith)
  element (y ∷ ys) zero h = (y, refl)
  element (y ∷ ys) (suc i) h = element ys i (omega arith)

  outside : (ys : List ℕ) (i x : ℕ) → get_elem? ys i ≡ some x → length ys ≤ i → ⊥
  outside [] i x e h = cc
  outside (y ∷ ys) zero x e h = omega arith
  outside (y ∷ ys) (suc i) x e h = outside ys i x e (omega arith)

  settled :
      (p x stop : ℕ)
      → (p < stop → test x ≡ true)
      → (stop ≤ p → test x ≡ false)
      → ltb p stop ≡ test x
  settled p x stop below above = elim (dec_lt p stop) [
    | yes h ↦ rw (lt→ltb p stop h, below h) refl
    | no h ↦ let off : ltb p stop ≡ false = ground arith in rw (off, above (omega arith)) refl
  ]

  upto :
      (p x m y : ℕ)
      → get_elem? xs p ≡ some x
      → get_elem? xs m ≡ some y
      → test y ≡ true
      → p < m + 1
      → test x ≡ true
  upto p x m y e f t h = elim (dec_lt p m) [
    | yes before ↦ partitioned p m x y before e f t
    | no last ↦ let same : p ≡ m = omega arith in cc
  ]

  from :
      (p x m y : ℕ)
      → get_elem? xs p ≡ some x
      → get_elem? xs m ≡ some y
      → test y ≡ false
      → m ≤ p
      → test x ≡ false
  from p x m y e f t h = elim (Bool-cases (test x)) [
    | inr off ↦ off
    | inl on ↦ elim (dec_lt m p) [
      | yes behind ↦ let both = partitioned m p y x behind f e on in cc
      | no same_place ↦ let same : p ≡ m = omega arith in cc
    ]
  ]

  -- An element at `p` satisfies the test exactly when it lies before the result.
  loop_splits :
      (p x : ℕ)
      → get_elem? xs p ≡ some x
      → (fuel left right : ℕ) → right - left < fuel
      → left ≤ right
      → right ≤ length xs
      → (p < left → test x ≡ true)
      → (right ≤ p → test x ≡ false)
      → ltb p (partition_loop test xs fuel left right) ≡ test x
  unfolding partition_loop
  loop_splits p x e zero left right f o r below above = absurd (omega arith)
  loop_splits p x e (suc fuel) left right f o r below above = elim (dec_lt left right) [
    | no ended ↦
        let shut : ltb left right ≡ false = ground arith in
        rw shut (settled p x left below (λ h. above (omega arith)))
    | yes more ↦
        let mid = (left + right) / 2 in
        let probed = element xs ((left + right) / 2) (omega arith) in
        elim (Bool-cases (test probed.0)) [
          | inl t ↦
              rw (lt→ltb left right more, probed.1, t)
                (loop_splits p x e fuel (mid + 1) right (omega arith) (omega arith) r
                  (upto p x mid probed.0 e probed.1 t) above)
          | inr t ↦
              rw (lt→ltb left right more, probed.1, t)
                (loop_splits p x e fuel left mid (omega arith) (omega arith) (omega arith) below
                  (from p x mid probed.0 e probed.1 t))
        ]
  ]

  -- An element satisfies the test exactly when it lies before the partition point.
  pub partition_point-splits :
      (p x : ℕ) → get_elem? xs p ≡ some x → ltb p (partition_point test xs) ≡ test x
  unfolding partition_point
  partition_point-splits p x e =
      loop_splits p x e (suc (length xs)) 0 (length xs) (omega arith) (omega arith) (omega arith)
        (λ h. absurd (omega arith)) (λ h. absurd (outside xs p x e h))
