-- ===== src/Execution/Sizer/Exit.antt =====
-- The search for a size that can be sold again within the allowed slippage.
use aimos.Prelude.{
  ℕ, zero, suc, ◌≤◌, ◌≡◌, refl, ◌⊎◌, inl, inr, true, false, Option, some, List, arith, Bool-cases,
  Option-cases, On, absent, present, On-some,
}
use aimos.Prelude.Floats.{Floats, ◌⊗◌, ◌≤?◌}
use aimos.Data.Book.{Level, simulate_market_order}
use aimos.Execution.Sizer.{shrink}

module _ {F : Type 0} ⦃fl : Floats F⦄ (levels : List (Level F)) (mid max_bps : F) where
  abbrev pub halved : ℕ → F → F
  halved zero size = size
  halved (suc k) size = halved k (size ⊗ fl.decimal 5 1)

  -- Selling the size into the book slips by no more than allowed.
  abbrev pub Clears : F → Type 0
  Clears size =
      (slip : F) × (simulate_market_order levels size mid ≡ some slip) × ((slip ≤? max_bps) ≡ true)

  -- Selling it slips by more.
  abbrev pub Slips : F → Type 0
  Slips size =
      (slip : F) × (simulate_market_order levels size mid ≡ some slip) × ((slip ≤? max_bps) ≡ false)

  -- The sizes before the k-th slip too much.
  abbrev pub AllSlip : ℕ → F → Type 0
  AllSlip zero size = Unit
  AllSlip (suc k) size = Slips size × AllSlip k (size ⊗ fl.decimal 5 1)

  pub record IsFound (n : ℕ) (size found : F) : Type 0 where
    pub k : ℕ
    pub in_time : k ≤ n
    pub value : found ≡ halved k size
    pub slipped : AllSlip k size
    pub ends : (k ≡ n) ⊎ Clears found

  shrink-IsFound : (n : ℕ) (size : F) → On (IsFound n size) (shrink n levels mid max_bps size)
  unfolding shrink
  shrink-IsFound zero size =
      present (record { k = 0; in_time = omega arith; value = refl; slipped = tt; ends = inl refl })
  shrink-IsFound (suc n) size = elim (Option-cases (simulate_market_order levels size mid)) [
    | inl e ↦ rw (shrink, e) absent
    | inr (slip, e) ↦ elim (Bool-cases (slip ≤? max_bps)) [
      | inl fits ↦
          rw (shrink, e, fits)
            (present (record {
              k = 0;
              in_time = omega arith;
              value = refl;
              slipped = tt;
              ends = inr (slip, e, fits);
            }))
      | inr over ↦
          rw (shrink, e, over) (later slip e over (shrink-IsFound n (size ⊗ fl.decimal 5 1)))
    ]
  ]
    where
      later :
          {o : Option F} (slip : F)
          → simulate_market_order levels size mid ≡ some slip
          → (slip ≤? max_bps) ≡ false
          → On (IsFound n (size ⊗ fl.decimal 5 1)) o
          → On (IsFound (suc n) size) o
      later slip e over absent = absent
      later slip e over (present h) = present (record {
        k = suc h.k;
        in_time = omega (arith, h.in_time);
        value = h.value;
        slipped = ((slip, e, over), h.slipped);
        ends = elim h.ends [ inl same ↦ inl (omega (arith, same)) | inr clears ↦ inr clears ];
      })

  -- In n tries the search, unless it raises, gives the size halved as often as the sizes before it
  -- slip too much: a size that clears, or after n failures the size halved once more, which is not
  -- tried.
  pub shrink_finds :
      (n : ℕ) (size found : F)
      → shrink n levels mid max_bps size ≡ some found
      → IsFound n size found
  shrink_finds n size found h = On-some (shrink-IsFound n size) h
