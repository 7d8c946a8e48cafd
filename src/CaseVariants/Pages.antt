-- ===== src/CaseVariants/Pages.antt =====
-- A page is a window of the exact matches followed by the variants, in the order of the candidates.
use mathlib.Core.Path.{ap₂}
use mdictlib.Prelude.{
  ◌&&◌, ℕ, suc, ◌+◌, ◌-◌, ◌≤◌, ◌<◌, min, Bool, true, false, Bool-cases, Option, none, some, List,
  [], ◌∷◌, ◌++◌, ltb, leb, ◌==◌, if◌then◌else◌, length, take, drop, length-take, length-drop,
  length-append, append-nil, dec_lt, lt→ltb, ◌≡◌, refl, sym, ap, ◌∙◌, inl, inr, arith,
}
use mdictlib.Prelude.Windows.{
  take_append, drop_append, take_none, drop_empty, take_empty, drop_step, take_step, take-min, snoc,
}
use mdictlib.Error.{Result, ok}
use mdictlib.Descriptors.{Text}
use mdictlib.CaseVariants.{
  LocatedKeyPage, raw_exact, case_variants, is_exact, is_variant, FirstPass, count_key, first_pass,
  second_pass, fill_page, select_ordinals,
}

-- The source keys at the positions from `p` on.
abbrev pub Supplies : (ℕ → Result (ℕ × Text)) → ℕ → List (ℕ × Text) → Type 0
Supplies source_key p [] = Unit {0}
Supplies source_key p (c ∷ cs) = (source_key p ≡ ok c) × Supplies source_key (suc p) cs

module _ (to_lowercase : ℕ → Text) (query : Text) (offset limit : ℕ)
    (source_key : ℕ → Result (ℕ × Text)) where
  -- The ordinals of the keys that are equal to the query, and of those that differ in case only.
  abbrev pub exacts : List (ℕ × Text) → List ℕ
  exacts [] = []
  exacts ((o, key) ∷ cs) = if is_exact query key then o ∷ exacts cs else exacts cs

  abbrev pub variants : List (ℕ × Text) → List ℕ
  variants [] = []
  variants ((o, key) ∷ cs) =
      if is_variant to_lowercase query key then o ∷ variants cs else variants cs

  -- What the first pass has when it has seen `cs` more.
  abbrev counted : FirstPass → List (ℕ × Text) → FirstPass
  counted s cs = record {
    ordinals =
        s.ordinals ++ take (limit - length s.ordinals) (drop (offset - s.exact_count) (exacts cs));
    exact_count = s.exact_count + length (exacts cs);
    variant_count = s.variant_count + length (variants cs);
  }

  pack :
      {o o' : List ℕ} {e e' v v' : ℕ}
      → o ≡ o'
      → e ≡ e'
      → v ≡ v'
      → ◌≡◌ {A = FirstPass}
          (record { ordinals = o; exact_count = e; variant_count = v })
          (record { ordinals = o'; exact_count = e'; variant_count = v' })
  pack p q r = cc

  -- One more exact match, inside the page, before it and behind it.
  window_step :
      (o : ℕ) (xs ords : List ℕ) (e : ℕ)
      → (if leb offset e && ltb (length ords) limit then ords ++ (o ∷ []) else ords)
          ++ take
              (limit
                - length
                    (if leb offset e && ltb (length ords) limit then ords ++ (o ∷ []) else ords))
              (drop (offset - (e + 1)) xs)
        ≡ ords ++ take (limit - length ords) (drop (offset - e) (o ∷ xs))
  window_step o xs ords e = elim (dec_lt e offset) [
    | yes before ↦
        let off : leb offset e ≡ false = ground arith in
        rw (off, drop_step (offset - e) o xs (omega arith))
          (ap (λ k. ords ++ take (limit - length ords) (drop k xs)) (omega arith))
    | no reached ↦
        let on : leb offset e ≡ true = ground arith in
        let here : offset - e ≡ 0 = omega arith in
        let behind : offset - (e + 1) ≡ 0 = omega arith in
        elim (dec_lt (length ords) limit) [
          | yes room ↦
              rw
                (
                  on,
                  lt→ltb (length ords) limit room,
                  here,
                  behind,
                  take_step (limit - length ords) o xs (omega arith),
                  length-append ords (o ∷ []),
                )
                (snoc ords (take (limit - (length ords + 1)) xs) o
                  ∙ ap (λ k. ords ++ (o ∷ take k xs)) (omega arith))
          | no full ↦
              let shut : ltb (length ords) limit ≡ false = ground arith in
              let none_left : limit - length ords ≡ 0 = omega arith in rw (on, shut, none_left) refl
        ]
  ]

  not_variant : (key : Text) → is_exact query key ≡ true → is_variant to_lowercase query key ≡ false
  unfolding is_exact is_variant
  not_variant key e = rw e refl

  counted_step :
      (c : ℕ × Text) (cs : List (ℕ × Text)) (s : FirstPass)
      → counted (count_key to_lowercase query offset limit source_key c s) cs ≡ counted s (c ∷ cs)
  unfolding count_key
  counted_step (o, key) cs s = elim (Bool-cases (is_exact query key)) [
    | inl e ↦
        let v : is_variant to_lowercase query key ≡ false = not_variant key e in
        rw (e, v) (pack (window_step o (exacts cs) s.ordinals s.exact_count) (omega arith) refl)
    | inr e ↦ elim (Bool-cases (is_variant to_lowercase query key)) [
      | inl v ↦ rw (e, v) (pack refl refl (omega arith))
      | inr v ↦ rw (e, v) refl
    ]
  ]

  first_pass-ok :
      (cs : List (ℕ × Text)) (p : ℕ) (s : FirstPass)
      → Supplies source_key p cs
      → first_pass to_lowercase query offset limit source_key (length cs) p s ≡ ok (counted s cs)
  unfolding first_pass
  first_pass-ok [] p s h =
      ap ok (
        pack (sym (rw (drop_empty, take_empty) (append-nil s.ordinals))) (omega arith)
          (omega arith))
  first_pass-ok (c ∷ cs) p s h =
      rw h.0 (first_pass-ok cs (suc p) _ h.1 ∙ ap ok (counted_step c cs s))

  -- What the second pass returns.
  abbrev filled : ℕ → ℕ → ℕ → List ℕ → List (ℕ × Text) → List ℕ
  filled wanted skip seen ords cs =
      ords ++ take (wanted - length ords) (drop (skip - seen) (variants cs))

  second_pass-ok :
      (cs : List (ℕ × Text)) (p wanted skip seen : ℕ) (ords : List ℕ)
      → Supplies source_key p cs
      → length ords < wanted
      → second_pass to_lowercase query offset limit source_key (length cs) p wanted skip seen ords
        ≡ ok (filled wanted skip seen ords cs)
  unfolding second_pass
  second_pass-ok [] p wanted skip seen ords h short =
      ap ok (sym (rw (drop_empty, take_empty) (append-nil ords)))
  second_pass-ok ((o, key) ∷ cs) p wanted skip seen ords h short =
      elim (Bool-cases (is_variant to_lowercase query key)) [
        | inr v ↦ rw (h.0, v) (second_pass-ok cs (suc p) wanted skip seen ords h.1 short)
        | inl v ↦ elim (dec_lt seen skip) [
          | yes before ↦
              let off : leb skip seen ≡ false = ground arith in
              rw (h.0, v, off, drop_step (skip - seen) o (variants cs) (omega arith))
                (second_pass-ok cs (suc p) wanted skip (seen + 1) ords h.1 short
                  ∙ ap (λ k. ok (ords ++ take (wanted - length ords) (drop k (variants cs))))
                      (omega arith))
          | no reached ↦
              let on : leb skip seen ≡ true = ground arith in
              let here : skip - seen ≡ 0 = omega arith in
              let behind : skip - (seen + 1) ≡ 0 = omega arith in
              let size : length (ords ++ (o ∷ [])) ≡ length ords + 1 =
                length-append ords (o ∷ []) in
              elim (dec_lt (length ords + 1) wanted) [
                | yes more ↦
                    let open_ended : (length ords + 1 == wanted) ≡ false = ground arith in
                    rw
                      (
                        h.0,
                        v,
                        on,
                        size,
                        open_ended,
                        here,
                        take_step (wanted - length ords) o (variants cs) (omega arith),
                      )
                      (second_pass-ok cs (suc p) wanted skip (seen + 1) (ords ++ (o ∷ [])) h.1
                          (omega arith)
                        ∙ ap ok (
                            rw (size, behind)
                              (snoc ords (take (wanted - (length ords + 1)) (variants cs)) o
                                ∙ ap (λ k. ords ++ (o ∷ take k (variants cs))) (omega arith))))
                | no done ↦
                    let full : (length ords + 1 == wanted) ≡ true = ground arith in
                    rw
                      (
                        h.0,
                        v,
                        on,
                        size,
                        full,
                        here,
                        take_step (wanted - length ords) o (variants cs) (omega arith),
                      )
                      (let empty : wanted - length ords - 1 ≡ 0 = omega arith in rw empty refl)
              ]
        ]
      ]

  -- The window of two lists, one behind the other, in two parts.
  window_split :
      (xs ys : List ℕ)
      → take limit (drop offset (xs ++ ys))
        ≡ take limit (drop offset xs)
          ++ take (limit - length (drop offset xs)) (drop (offset - length xs) ys)
  window_split xs ys =
      ap (λ t. take limit t) (drop_append offset xs ys)
      ∙ take_append limit (drop offset xs) (drop (offset - length xs) ys)

  -- The second part, when the first one does not reach the wanted length.
  window_rest :
      (xs ys : List ℕ)
      → length (take limit (drop offset xs)) < min limit (length xs + length ys - offset)
      → take
          (min limit (length xs + length ys - offset) - length (take limit (drop offset xs)))
          (drop (offset - length xs) ys)
        ≡ take (limit - length (drop offset xs)) (drop (offset - length xs) ys)
  window_rest xs ys short =
      let a = length-take limit (drop offset xs) in
      let b = length-drop offset xs in
      let c = length-drop (offset - length xs) ys in
      ap (λ k. take k (drop (offset - length xs) ys))
        {y = min (limit - length (drop offset xs)) (length (drop (offset - length xs) ys))}
        (omega arith)
      ∙ take-min (limit - length (drop offset xs)) (drop (offset - length xs) ys)

  -- The second part is empty when the first one does reach it.
  window_full :
      (xs ys : List ℕ)
      → min limit (length xs + length ys - offset) ≤ length (take limit (drop offset xs))
      → take (limit - length (drop offset xs)) (drop (offset - length xs) ys) ≡ []
  window_full xs ys reach =
      let a = length-take limit (drop offset xs) in
      let b = length-drop offset xs in
      let c = length-drop (offset - length xs) ys in
      sym (take-min (limit - length (drop offset xs)) (drop (offset - length xs) ys))
      ∙ take_none (drop (offset - length xs) ys)
          (min (limit - length (drop offset xs)) (length (drop (offset - length xs) ys)))
          (omega arith)

  abbrev after_first : List (ℕ × Text) → FirstPass
  after_first cs = record {
    ordinals = take limit (drop offset (exacts cs));
    exact_count = length (exacts cs);
    variant_count = length (variants cs);
  }

  fill_page-ok :
      (cs : List (ℕ × Text))
      → Supplies source_key 0 cs
      → fill_page to_lowercase query offset limit source_key
          (length cs)
          (length (exacts cs) + length (variants cs))
          (min limit (length (exacts cs) + length (variants cs) - offset))
          (after_first cs)
        ≡ ok (take limit (drop offset (exacts cs ++ variants cs)))
  unfolding fill_page
  fill_page-ok cs h =
      let xs = exacts cs in
      let ys = variants cs in
      let wanted = min limit (length xs + length ys - offset) in
      elim (dec_lt (length (take limit (drop offset xs))) wanted) [
        | yes short ↦ rw (lt→ltb (length (take limit (drop offset xs))) wanted short) (
            second_pass-ok cs 0 wanted (offset - length xs) 0 (take limit (drop offset xs)) h short
            ∙ ap ok (
                ap (λ t. take limit (drop offset xs) ++ t)
                  (ap (λ k. take (wanted - length (take limit (drop offset xs))) (drop k ys))
                      {y = offset - length xs} (omega arith)
                    ∙ window_rest xs ys short)
                ∙ sym (window_split xs ys)))
        | no reach ↦
            let shut : ltb (length (take limit (drop offset xs))) wanted ≡ false = ground arith in
            rw shut (
              ap ok (
                sym (
                  window_split xs ys
                  ∙ ap (λ t. take limit (drop offset xs) ++ t) (window_full xs ys (omega arith))
                  ∙ append-nil (take limit (drop offset xs)))))
      ]

  -- The page of the whole sequence of matches.
  abbrev pub page_of : List (ℕ × Text) → ℕ → Option LocatedKeyPage
  page_of cs bytes =
      if length (exacts cs) + length (variants cs) == 0
      then none
      else some (record {
        basis = (if length (variants cs) == 0 then raw_exact else case_variants);
        total = length (exacts cs) + length (variants cs);
        ordinals = take limit (drop offset (exacts cs ++ variants cs));
        reserved = bytes;
      })

  first_pass_all :
      (cs : List (ℕ × Text))
      → Supplies source_key 0 cs
      → first_pass to_lowercase query offset limit source_key
          (length cs)
          0
          (record { ordinals = []; exact_count = 0; variant_count = 0 })
        ≡ ok (after_first cs)
  first_pass_all cs h =
      first_pass-ok cs 0 _ h
      ∙ ap ok (
          pack (ap₂ (λ i j. take i (drop j (exacts cs))) (omega arith) (omega arith)) (omega arith)
            (omega arith))

  choose :
      (t : Bool) (page : LocatedKeyPage)
      → (if t then ok none else ok (some page)) ≡ ok (if t then none else some page)
  choose true page = refl
  choose false page = refl

  -- Over source keys that can be read, the two passes return no page when no key matches; and else
  -- the window of `limit` ordinals from `offset` on, of the exact matches followed by the keys that
  -- differ in case only, each in the order of the candidates, with the number of both together.
  pub select_ordinals-ok :
      (cs : List (ℕ × Text)) (bytes : ℕ)
      → Supplies source_key 0 cs
      → select_ordinals to_lowercase query offset limit source_key (length cs) bytes
        ≡ ok (page_of cs bytes)
  unfolding select_ordinals
  select_ordinals-ok cs bytes h = rw (first_pass_all cs h, fill_page-ok cs h) (choose _ _)
