-- ===== src/Paper/Overwrite.antt =====
-- What becomes of an open position when its symbol is entered again.
use aimos.Prelude.{String, ◌≡◌, refl, some, [], ◌∷◌, arith, length}
use text.Mathlib.TextPositions.{eq_refl}
use aimos.Prelude.Int.{ℤ}
use aimos.Prelude.Dict.{Dict, lookup, insert, lookup-insert}
use aimos.Prelude.Floats.{Floats}
use aimos.Schemas.{TradePlan, Position}
use aimos.Paper.{PaperBroker, new_position, open_position}

length-insert :
    {V : Type 0} (k : String) (v w : V) (d : Dict V)
    → lookup k d ≡ some w
    → length (insert k v d) ≡ length d
unfolding lookup insert
length-insert k v w [] h = cc (h)
length-insert k v w ((j, u) ∷ d) h = ground (arith, h, length-insert k v w d)

module _ {F : Type 0} ⦃fl : Floats F⦄ where
  -- An entry on a symbol that has a position puts the new one in its place: the old one is in no list
  -- any more, and neither an outcome nor a profit is recorded for it.
  pub open_overwrites :
      (plan : TradePlan F) (price : F) (now : ℤ) (b : PaperBroker F) (old : Position F)
      → lookup plan.symbol b.positions ≡ some old
      → let b' = open_position plan price now b in
        (lookup plan.symbol b'.positions ≡ some (new_position plan price now))
        × (length b'.positions ≡ length b.positions)
        × (b'.pending_outcomes ≡ b.pending_outcomes)
        × (b'.realized ≡ b.realized)
  unfolding open_position
  open_overwrites plan price now b old h = (
    rw (lookup-insert, eq_refl) refl,
    length-insert plan.symbol (new_position plan price now) old b.positions h,
    refl,
    refl,
  )
