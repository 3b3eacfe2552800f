-- ===== src/Prelude/Floats.antt =====
-- Python's floats, as the operations that the program applies to them. No law is assumed, so what
-- is proved holds for rounded results, infinities and NaN as well. `total_seconds`, `seconds` and
-- `minutes` are the conversions of `datetime.timedelta`, which counts microseconds.
use mathlib.Core.Bool.{Bool, not}
use aimos.Prelude.Tests.{if◌then◌else◌}
use Prim.Native.Nat.{ℕ, ◌^◌}
use mathlib.Core.Bool.{true, false}
use mathlib.Core.Path.{◌≡◌}
use native.Mathlib.Omega.{arith}
use aimos.Prelude.Int.{ℤ, pos, ◌+ℤ◌, ◌-ℤ◌, ◌*ℤ◌, ◌/ℤ◌, ltb_ℤ, leb_ℤ, eqb_ℤ}

pub record Floats (F : Type 0) : Type 0 where
  pub add : F → F → F
  pub sub : F → F → F
  pub mul : F → F → F
  pub div : F → F → F
  pub abs : F → F
  pub lt : F → F → Bool
  pub le : F → F → Bool
  pub eq : F → F → Bool
  pub is_finite : F → Bool
  -- a literal: digits, and how many of them stand behind the point
  pub decimal : ℕ → ℕ → F
  -- `round(x, digits)`
  pub round_to : F → ℕ → F
  pub total_seconds : ℤ → F
  pub seconds : F → ℤ
  pub minutes : F → ℤ

module _ {F : Type 0} ⦃fl : Floats F⦄ where
  infixl 65 ◌⊕◌ ◌⊖◌
  infixl 70 ◌⊗◌ ◌⊘◌
  infix 50 ◌<?◌ ◌≤?◌
  abbrev pub ◌⊕◌ : F → F → F
  ◌⊕◌ = fl.add

  abbrev pub ◌⊖◌ : F → F → F
  ◌⊖◌ = fl.sub

  abbrev pub ◌⊗◌ : F → F → F
  ◌⊗◌ = fl.mul

  abbrev pub ◌⊘◌ : F → F → F
  ◌⊘◌ = fl.div

  abbrev pub ◌<?◌ : F → F → Bool
  ◌<?◌ = fl.lt

  abbrev pub ◌≤?◌ : F → F → Bool
  ◌≤?◌ = fl.le

  abbrev pub nat : ℕ → F
  nat n = fl.decimal n 0

  -- the truth value of a float: `bool(x)`
  abbrev pub truthy : F → Bool
  truthy x = not (fl.eq x (nat 0))

  abbrev pub negate : F → F
  negate x = fl.sub (nat 0) x

  -- Python's `max(a, b)` and `min(a, b)` keep the first of two that compare neither way.
  abbrev pub fmax : F → F → F
  fmax a b = if a <? b then b else a

  abbrev pub fmin : F → F → F
  fmin a b = if b <? a then b else a

  -- `clamp01` of aimos/core/normalize.py
  unfoldable pub clamp01 : F → F
  clamp01 x = fmax (nat 0) (fmin (nat 1) x)

-- An instance to evaluate the model with: integers that count hundred-thousandths.
abbrev pub scale : ℤ
scale = pos 100000

instance abbrev pub fixed : Floats ℤ
fixed = record {
  add = ◌+ℤ◌;
  sub = ◌-ℤ◌;
  mul = λ a b. (a *ℤ b) /ℤ scale;
  div = λ a b. (a *ℤ scale) /ℤ b;
  abs = λ a. if ltb_ℤ a (pos 0) then pos 0 -ℤ a else a;
  lt = ltb_ℤ;
  le = leb_ℤ;
  eq = eqb_ℤ;
  is_finite = λ _. true;
  decimal = λ m e. (pos m *ℤ scale) /ℤ pos (10 ^ e);
  round_to = λ x _. x;
  total_seconds = λ t. (t *ℤ scale) /ℤ pos 1000000;
  seconds = λ x. (x *ℤ pos 1000000) /ℤ scale;
  minutes = λ x. (x *ℤ pos 60000000) /ℤ scale;
}

-- `<` on floats is a strict order, also with infinities and NaN among them.
pub record IsStrict {F : Type 0} (fl : Floats F) : Type 0 where
  pub irrefl : (x : F) → fl.lt x x ≡ false
  pub trans : (x y z : F) → fl.lt x y ≡ true → fl.lt y z ≡ true → fl.lt x z ≡ true

pub fixed-IsStrict : IsStrict fixed
fixed-IsStrict = record { irrefl = λ x. ground arith; trans = λ x y z h k. ground (arith, h, k) }
