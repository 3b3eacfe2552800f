-- ===== src/Paper/Ledger.antt =====
-- The ledger: the cash and the realised profit follow from the fills.
use aimos.Prelude.{
  String, ◌≡◌, refl, inl, inr, false, some, List, [], ◌∷◌, ◌++◌, arith, if◌then◌else◌, str_eq,
  Bool-cases, Option-cases,
}
use aimos.Prelude.Int.{ℤ}
use aimos.Prelude.Dict.{lookup, insert}
use aimos.Prelude.Floats.{Floats, ◌⊕◌, ◌⊖◌}
use aimos.Schemas.{TradePlan, Position}
use aimos.Paper.{
  FillKind, is_entry, Fill, Bar, PendingOrder, PaperBroker, place_paper, cancel_all, drain_outcomes,
  fill_price, open_position, fill_all, update_excursions, exit_of, close, check_exits, step_bar, Op,
  places, bars, cancels, drains, step, run,
}

module _ {F : Type 0} ⦃fl : Floats F⦄ where
  -- The cash after some fills: an entry takes its fee, an exit gives its profit.
  abbrev pub cash_after : F → List (Fill F) → F
  cash_after c [] = c
  cash_after c (f ∷ fs) =
      cash_after (if is_entry f.kind then c ⊖ f.fee_quote else c ⊕ f.pnl_quote) fs

  abbrev pub realized_after : F → List (Fill F) → F
  realized_after x [] = x
  realized_after x (f ∷ fs) = realized_after (if is_entry f.kind then x else x ⊕ f.pnl_quote) fs

  cash_after-append :
      (c : F) (fs : List (Fill F)) (f : Fill F)
      → cash_after c (fs ++ f ∷ [])
        ≡ (if is_entry f.kind then cash_after c fs ⊖ f.fee_quote else cash_after c fs ⊕ f.pnl_quote)
  cash_after-append c [] f = refl
  cash_after-append c (g ∷ fs) f =
      cash_after-append (if is_entry g.kind then c ⊖ g.fee_quote else c ⊕ g.pnl_quote) fs f

  realized_after-append :
      (x : F) (fs : List (Fill F)) (f : Fill F)
      → realized_after x (fs ++ f ∷ [])
        ≡ (if is_entry f.kind then realized_after x fs else realized_after x fs ⊕ f.pnl_quote)
  realized_after-append x [] f = refl
  realized_after-append x (g ∷ fs) f =
      realized_after-append (if is_entry g.kind then x else x ⊕ g.pnl_quote) fs f

  module _ (start : F) (profit : F) where
    -- From `start` and `profit`, the broker's money is what its fills leave.
    pub record Balanced (b : PaperBroker F) : Type 0 where
      pub cash : b.cash ≡ cash_after start b.fills
      pub realized : b.realized ≡ realized_after profit b.fills

    open-Balanced :
        (plan : TradePlan F) (price : F) (now : ℤ) (b : PaperBroker F)
        → Balanced b
        → Balanced (open_position plan price now b)
    unfolding open_position
    open-Balanced plan price now b h = record {
      cash = rw (cash_after-append) (rw (← h.cash) refl);
      realized = rw (realized_after-append) h.realized;
    }

    fill_all-Balanced :
        (symbol : String) (bar : Bar F) (now : ℤ) (still ps : List (PendingOrder F))
        (b : PaperBroker F)
        → Balanced b
        → Balanced (fill_all symbol bar now still ps b)
    unfolding fill_all
    fill_all-Balanced symbol bar now still [] b h = record { cash = h.cash; realized = h.realized }
    fill_all-Balanced symbol bar now still (p ∷ ps) b h =
        elim (Bool-cases (str_eq p.plan.symbol symbol)) [
          | inr other ↦
              rw (other, fill_all) (fill_all-Balanced symbol bar now (still ++ p ∷ []) ps b h)
          | inl mine ↦ elim (Option-cases (fill_price p bar)) [
            | inl e ↦
                rw (mine, fill_all)
                  (rw (e) (fill_all-Balanced symbol bar now (still ++ p ∷ []) ps b h))
            | inr (price, e) ↦
                rw (mine, fill_all)
                  (rw (e) (
                    fill_all-Balanced symbol bar now still ps (open_position p.plan price now b)
                      (open-Balanced p.plan price now b h)))
          ]
        ]

    excursions-Balanced :
        (symbol : String) (bar : Bar F) (b : PaperBroker F)
        → Balanced b
        → Balanced (update_excursions symbol bar b)
    unfolding update_excursions
    excursions-Balanced symbol bar b h = record {
      cash = ground (arith, h.cash);
      realized = ground (arith, h.realized);
    }

    close-Balanced :
        (pos : Position F) (price : F) (kind : FillKind) (now : ℤ) (b : PaperBroker F)
        → is_entry kind ≡ false
        → Balanced b
        → Balanced (close pos price kind now b)
    unfolding close
    close-Balanced pos price kind now b k h = record {
      cash = rw (cash_after-append) (rw (k, ← h.cash) refl);
      realized = rw (realized_after-append) (rw (k, ← h.realized) refl);
    }

    exit_of_kind :
        (pos : Position F) (bar : Bar F) (x : F × FillKind)
        → exit_of pos bar ≡ some x
        → is_entry x.1 ≡ false
    unfolding exit_of
    exit_of_kind pos bar x e = ground (arith, e)

    exits-Balanced :
        (symbol : String) (bar : Bar F) (now : ℤ) (b : PaperBroker F)
        → Balanced b
        → Balanced (check_exits symbol bar now b)
    unfolding check_exits
    exits-Balanced symbol bar now b h = elim (Option-cases (lookup symbol b.positions)) [
      | inl e ↦ rw (e, check_exits) h
      | inr (pos, e) ↦ elim (Option-cases (exit_of pos bar)) [
        | inl n ↦ rw (e, check_exits) (rw (n) h)
        | inr (x, n) ↦
            rw (e, check_exits)
              (rw (n) (close-Balanced pos x.0 x.1 now b (exit_of_kind pos bar x n) h))
      ]
    ]

    step-Balanced : (op : Op F) (b : PaperBroker F) → Balanced b → Balanced (step op b)
    unfolding place_paper cancel_all drain_outcomes step_bar
    step-Balanced (places plan) b h = record {
      cash = ground (arith, h.cash);
      realized = ground (arith, h.realized);
    }
    step-Balanced (cancels symbol) b h = record { cash = h.cash; realized = h.realized }
    step-Balanced drains b h = record { cash = h.cash; realized = h.realized }
    step-Balanced (bars symbol bar now) b0 h =
        let b = record b0 { last_mark = insert symbol bar.close b0.last_mark } in
        let filled = fill_all symbol bar now [] b0.pending b in
        exits-Balanced symbol bar now (update_excursions symbol bar filled) (
          excursions-Balanced symbol bar filled (
            fill_all-Balanced symbol bar now [] b0.pending b
              (record { cash = h.cash; realized = h.realized })))

    -- Without funding, over any orders, bars, cancellations and drains, the cash is exactly what the fills
    -- leave of the starting equity, and the realised profit is exactly the sum of the exits' profits, in
    -- the order and with the rounding in which they happened: no fill is booked twice or forgotten.
    pub run-Balanced : (ops : List (Op F)) (b : PaperBroker F) → Balanced b → Balanced (run ops b)
    run-Balanced [] b h = h
    run-Balanced (op ∷ ops) b h = run-Balanced ops (step op b) (step-Balanced op b h)
