-- ===== src/Data/Book/Window.antt =====
-- The rolling window of book snapshots: `BookWindow` of aimos/data/orderbook.py, whose buffer is a
-- deque with a `maxlen`: an append to a full one drops the item at the front.
use aimos.Prelude.{
  ℕ, zero, suc, ◌+◌, ◌-◌, ◌≤◌, min, ◌≡◌, refl, ◌∙◌, ap, List, [], ◌∷◌, ◌++◌, arith, length,
  length-append, drop, length-drop, drop-drop, drop-nil, sym, ltb, true, false, Bool-cases, inl,
  inr, ◌==◌, if◌then◌else◌,
}
use mathlib.Core.List.{append_assoc, append-nil}
use aimos.Prelude.Floats.{Floats, ◌⊕◌, ◌⊘◌, nat}
use aimos.Schemas.{BookAggregate}

pub record BookWindow (A : Type 0) : Type 0 where
  pub maxlen : ℕ
  pub buf : List A

module _ {A : Type 0} where
  abbrev pub new_window : ℕ → BookWindow A
  new_window maxlen = record { maxlen = maxlen; buf = [] }

  abbrev pub bounded : ℕ → List A → List A
  bounded maxlen buf = if ltb maxlen (length buf) then drop 1 buf else buf

  unfoldable pub add : A → BookWindow A → BookWindow A
  add agg w = record w { buf = bounded w.maxlen (w.buf ++ agg ∷ []) }

  unfoldable pub add_all : List A → BookWindow A → BookWindow A
  add_all [] w = w
  add_all (agg ∷ aggs) w = add_all aggs (add agg w)

  -- `list(self._buf)[-n:]`, which is the whole list for 0
  unfoldable pub last : ℕ → BookWindow A → List A
  last n w = if n == 0 then w.buf else drop (length w.buf - n) w.buf

-- `mean_imbalance` and the sum in it.
module _ {F : Type 0} ⦃fl : Floats F⦄ where
  abbrev pub sum_imbalance : F → List (BookAggregate F) → F
  sum_imbalance total [] = total
  sum_imbalance total (a ∷ aggs) = sum_imbalance (total ⊕ a.imbalance) aggs

  abbrev pub mean_of : List (BookAggregate F) → F
  mean_of [] = nat 0
  mean_of (a ∷ aggs) = sum_imbalance (nat 0) (a ∷ aggs) ⊘ nat (length (a ∷ aggs))

  unfoldable pub mean_imbalance : ℕ → BookWindow (BookAggregate F) → F
  unfolding last
  mean_imbalance n w = mean_of (last n w)

module _ {A : Type 0} where
  drop-front :
      (k : ℕ) (seen : List A) (agg : A)
      → suc k ≤ length seen + 1
      → drop 1 (drop k seen ++ agg ∷ []) ≡ drop (suc k) (seen ++ agg ∷ [])
  drop-front zero seen agg h = refl
  drop-front (suc k) [] agg h = absurd (omega arith)
  drop-front (suc k) (x ∷ seen) agg h = drop-front k seen agg (omega arith)

  bounded_lem :
      (n : ℕ) (seen : List A) (agg : A)
      → bounded n (drop (length seen - n) seen ++ agg ∷ [])
        ≡ drop (length (seen ++ agg ∷ []) - n) (seen ++ agg ∷ [])
  bounded_lem n seen agg = elim (Bool-cases (ltb (length seen) n)) [
    | inl e ↦
        let here : length seen - n ≡ 0 = ground (arith, e) in
        let there : length (seen ++ agg ∷ []) - n ≡ 0 =
          ground (arith, e, length-append seen (agg ∷ [])) in
        let fits : ltb n (length (seen ++ agg ∷ [])) ≡ false =
          ground (arith, e, length-append seen (agg ∷ [])) in
        rw (here, there, fits) refl
    | inr e ↦
        let more : length (seen ++ agg ∷ []) - n ≡ suc (length seen - n) =
          ground (arith, e, length-append seen (agg ∷ [])) in
        let full : ltb n (length (drop (length seen - n) seen ++ agg ∷ [])) ≡ true = ground (
          arith,
          e,
          length-append (drop (length seen - n) seen) (agg ∷ []),
          length-drop (length seen - n) seen,
        ) in
        rw (more, full) (drop-front (length seen - n) seen agg (ground (arith, e)))
  ]

  add_all_from :
      (n : ℕ) (aggs held seen : List A)
      → held ≡ drop (length seen - n) seen
      → (add_all aggs (record { maxlen = n; buf = held })).buf
        ≡ drop (length (seen ++ aggs) - n) (seen ++ aggs)
  unfolding add_all add
  add_all_from n [] held seen h = rw append-nil h
  add_all_from n (agg ∷ aggs) held seen h =
      add_all_from n aggs (bounded n (held ++ agg ∷ [])) (seen ++ agg ∷ [])
        (ap (λ b. bounded n (b ++ agg ∷ [])) h ∙ bounded_lem n seen agg)
      ∙ rw (append_assoc seen (agg ∷ []) aggs) refl

  add_all-buf :
      (n : ℕ) (aggs : List A) → (add_all aggs (new_window n)).buf ≡ drop (length aggs - n) aggs
  add_all-buf n aggs = add_all_from n aggs [] [] (sym (drop-nil (0 - n)))

  -- However many snapshots are added to a new window, it holds the last `maxlen` of them in order, or
  -- all if there are no more, so never more than `maxlen`; and `last k`, for k not 0, gives the last
  -- k of all the snapshots as far as the window holds that many.
  pub add_all-last :
      (n k : ℕ) (aggs : List A)
      → let w = add_all aggs (new_window n) in
        (w.buf ≡ drop (length aggs - n) aggs)
        × (length w.buf ≤ n)
        × (last (suc k) w ≡ drop (length aggs - min (suc k) n) aggs)
  unfolding last
  add_all-last n k aggs =
      let e : (suc k == 0) ≡ false = ground arith in
      rw (add_all-buf n aggs, e)
        (
          refl,
          omega (arith, length-drop (length aggs - n) aggs),
          drop-drop (length (drop (length aggs - n) aggs) - suc k) (length aggs - n) aggs
              ∙ ap (λ i. drop i aggs) (ground (arith, length-drop (length aggs - n) aggs)),
        )
