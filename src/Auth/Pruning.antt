-- ===== src/Auth/Pruning.antt =====
-- Pruning a list of times that is in order.
use aimos.Prelude.{
  ℕ, suc, ◌≤◌, ◌≡◌, refl, sym, ap, true, false, List, [], ◌∷◌, ◌++◌, arith, All, All-append,
  Bool-cases, inl, inr, length,
}
use aimos.Auth.{is_old, prune}
use aimos.Auth.History.{recent_failures}

-- No time in the list is later than a time.
abbrev pub NoLater : ℕ → List ℕ → Type 0
NoLater last = All (λ time. time ≤ last)

abbrev pub Rising : List ℕ → Type 0
Rising [] = Unit
Rising (x ∷ xs) = All (λ y. x ≤ y) xs × Rising xs

pub All-weaken : {P Q : ℕ → Type 0} → ((x : ℕ) → P x → Q x) → (xs : List ℕ) → All P xs → All Q xs
All-weaken f [] _ = tt
All-weaken f (x ∷ xs) h = (f x h.0, All-weaken f xs h.1)

pub Rising-append :
    (held : List ℕ) (now : ℕ) → Rising held → NoLater now held → Rising (held ++ now ∷ [])
Rising-append [] now _ _ = (tt, tt)
Rising-append (x ∷ xs) now h k =
    (All-append (λ y. x ≤ y) xs (now ∷ []) h.0 (k.0, tt), Rising-append xs now h.1 k.1)

module _ (window : ℕ) where
  pub old_later :
      (last now time : ℕ)
      → last ≤ now
      → is_old window last time ≡ true
      → is_old window now time ≡ true
  old_later last now time h e = ground (arith, h, e)

  -- Pruning parts the list into old failures and the rest.
  pub record Parts (now : ℕ) (held : List ℕ) : Type 0 where
    pub front : List ℕ
    pub back : held ≡ front ++ prune window now held
    pub old : All (λ time. is_old window now time ≡ true) front

  pub prune-Parts : (now : ℕ) (held : List ℕ) → Parts now held
  unfolding prune
  prune-Parts now [] = record { front = []; back = refl; old = tt }
  prune-Parts now (x ∷ xs) = elim (Bool-cases (is_old window now x)) [
    | inl e ↦
        let rest = prune-Parts now xs in
        record {
          front = x ∷ rest.front;
          back = rw (e) (ap (λ ys. x ∷ ys) rest.back);
          old = (e, rest.old);
        }
    | inr e ↦ record { front = []; back = rw (e) refl; old = tt }
  ]

  pub prune-All :
      (P : ℕ → Type 0) (now : ℕ) (held : List ℕ) → All P held → All P (prune window now held)
  unfolding prune
  prune-All P now [] _ = tt
  prune-All P now (x ∷ xs) h = elim (Bool-cases (is_old window now x)) [
    | inl e ↦ rw (e) (prune-All P now xs h.1)
    | inr e ↦ rw (e) h
  ]

  pub prune-Rising : (now : ℕ) (held : List ℕ) → Rising held → Rising (prune window now held)
  unfolding prune
  prune-Rising now [] _ = tt
  prune-Rising now (x ∷ xs) h = elim (Bool-cases (is_old window now x)) [
    | inl e ↦ rw (e) (prune-Rising now xs h.1)
    | inr e ↦ rw (e) h
  ]

  pub old_count :
      (now : ℕ) (xs : List ℕ)
      → All (λ time. is_old window now time ≡ true) xs
      → recent_failures window now xs ≡ 0
  old_count now [] _ = refl
  old_count now (x ∷ xs) h = rw (h.0) (old_count now xs h.1)

  fresh_count :
      (now x : ℕ) (xs : List ℕ)
      → is_old window now x ≡ false
      → All (λ y. x ≤ y) xs
      → recent_failures window now xs ≡ length xs
  fresh_count now x [] _ _ = refl
  fresh_count now x (y ∷ ys) e h =
      let fresh : is_old window now y ≡ false = ground (arith, e, h.0) in
      rw (fresh) (ap suc (fresh_count now x ys e h.1))

  -- Among failures in order, the recent ones are those that pruning leaves.
  pub prune_count :
      (now : ℕ) (held : List ℕ)
      → Rising held
      → length (prune window now held) ≡ recent_failures window now held
  unfolding prune
  prune_count now [] _ = refl
  prune_count now (x ∷ xs) h = elim (Bool-cases (is_old window now x)) [
    | inl e ↦ rw (e) (prune_count now xs h.1)
    | inr e ↦ rw (e) (ap suc (sym (fresh_count now x xs e h.0)))
  ]
