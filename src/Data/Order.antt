-- ===== src/Data/Order.antt =====
-- Queues in order.
use aimos.Prelude.{ℕ, ◌≡◌, inl, inr, true, false, List, [], ◌∷◌, ◌++◌, arith, All, ltb, Bool-cases}
use aimos.Data.RateLimit.{Pending, is_before, heappush, is_blocked}

-- No request comes before the one in front of it.
abbrev pub Above : Pending → List Pending → Type 0
Above p [] = Unit
Above p (q ∷ _) = is_before q p ≡ false

abbrev pub Sorted : List Pending → Type 0
Sorted [] = Unit
Sorted (p ∷ qs) = Above p qs × Sorted qs

before_asym : (p q : Pending) → is_before p q ≡ true → is_before q p ≡ false
unfolding is_before
before_asym p q h = ground (arith, h)

heappush-Above :
    (r p : Pending) (qs : List Pending)
    → is_before p r ≡ false
    → Above r qs
    → Above r (heappush p qs)
unfolding heappush
heappush-Above r p [] h _ = h
heappush-Above r p (q ∷ qs) h k = elim (Bool-cases (is_before p q)) [
  | inl e ↦ rw (e) h
  | inr e ↦ rw (e) k
]

pub heappush-Sorted : (p : Pending) (qs : List Pending) → Sorted qs → Sorted (heappush p qs)
unfolding heappush
heappush-Sorted p [] _ = (tt, tt)
heappush-Sorted p (q ∷ qs) h = elim (Bool-cases (is_before p q)) [
  | inl e ↦ rw (e) (before_asym p q e, h)
  | inr e ↦ rw (e) (heappush-Above q p qs e h.0, heappush-Sorted p qs h.1)
]

-- In a queue in order, the ranks behind the first request are no smaller.
pub Sorted-ranks :
    (rank : ℕ) (qs : List Pending)
    → Sorted qs
    → is_blocked qs rank ≡ false
    → All (λ q. ltb q.priority_rank rank ≡ false) qs
unfolding is_blocked
Sorted-ranks rank [] _ _ = tt
Sorted-ranks rank (p ∷ []) _ e = (e, tt)
Sorted-ranks rank (p ∷ q ∷ qs) h e =
    (e, Sorted-ranks rank (q ∷ qs) h.1 (unfold is_before in ground (arith, h.0, e)))

pub Sorted-left : (taken left : List Pending) → Sorted (taken ++ left) → Sorted left
Sorted-left [] left h = h
Sorted-left (p ∷ taken) left h = Sorted-left taken left h.1
