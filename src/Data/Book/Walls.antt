-- ===== src/Data/Book/Walls.antt =====
-- Resting walls: `detect_walls` of aimos/data/orderbook.py. The sizes are sorted by insertion, which is
-- Python's sort as long as no size is NaN.
use aimos.Prelude.{
  Bool, false, Option, none, some, List, [], ◌∷◌, ◌/◌, length, keep, get_elem?, map, if◌then◌else◌,
}
use aimos.Prelude.Floats.{Floats, ◌⊖◌, ◌⊗◌, ◌⊘◌, ◌<?◌, ◌≤?◌, nat}

pub record Wall (F : Type 0) : Type 0 where
  pub price : F
  pub size : F
  pub above_mid : Bool
  pub spoof_suspect : Bool

module _ {F : Type 0} ⦃fl : Floats F⦄ where
  abbrev pub insert_sorted : F → List F → List F
  insert_sorted x [] = x ∷ []
  insert_sorted x (y ∷ ys) =
      let rest = insert_sorted x ys in if x <? y then x ∷ y ∷ ys else y ∷ rest

  abbrev pub sorted_from : List F → List F → List F
  sorted_from done [] = done
  sorted_from done (x ∷ xs) = sorted_from (insert_sorted x done) xs

  -- `age_seconds.get(price)`
  unfoldable pub age_of : F → List (F × F) → Option F
  age_of price [] = none
  age_of price ((p, age) ∷ ages) =
      let rest = age_of price ages in if fl.eq p price then some age else rest

  abbrev pub is_recent : F → Option F → Bool
  is_recent spoof_age none = false
  is_recent spoof_age (some age) = age <? spoof_age

  abbrev pub near_mid : F → F → List (F × F) → List (F × F)
  near_mid mid within levels = keep (λ l. fl.abs (l.0 ⊖ mid) ≤? (mid ⊗ within)) levels

  abbrev pub wall_of : F → List (F × F) → F → F × F → Wall F
  wall_of mid ages spoof_age l = record {
    price = l.0;
    size = l.1;
    above_mid = mid <? l.0;
    spoof_suspect = is_recent spoof_age (age_of l.0 ages);
  }

  abbrev pub walls_above : F → F → List (F × F) → F → List (F × F) → Option F → List (Wall F)
  walls_above mid size_mult ages spoof_age near none = []
  walls_above mid size_mult ages spoof_age near (some median) =
      if median ≤? nat 0
      then []
      else map (wall_of mid ages spoof_age) (keep (λ l. (size_mult ⊗ median) <? l.1) near)

  -- No level near the mid has no median, and no walls.
  unfoldable pub detect_walls : List (F × F) → F → F → F → List (F × F) → F → List (Wall F)
  detect_walls levels mid within_pct size_mult ages spoof_age =
      let near = near_mid mid (within_pct ⊘ nat 100) levels in
      let sizes = sorted_from [] (map (λ l. l.1) near) in
      walls_above mid size_mult ages spoof_age near (get_elem? sizes (length sizes / 2))
