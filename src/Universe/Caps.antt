-- ===== src/Universe/Caps.antt =====
-- The caps on T1 and on the provisional slots.
use aimos.Prelude.{
  ℕ, String, Bool, not, ◌+◌, ◌≤◌, ◌<◌, Option, List, [], ◌∷◌, arith, All-any, str_eq, length,
  if◌then◌else◌, keep,
}
use aimos.Prelude.Dict.{Dict, insert, erase}
use aimos.Prelude.Floats.{Floats}
use aimos.Prelude.Text.{upper}
use aimos.Universe.Scan.{update-keeps}
use aimos.Universe.Tiers.{
  Tier, t1, t2, t3, t1_provisional, same_tier, Why, TierChange, promoted, TierEngine, members,
  t1_members, add_provisional, clear_provisional, set_tier, promotable, update, Op, scan,
  fast_tracks, closes, step, run,
}

abbrev count : Dict Tier → ℕ
count d = length (members t1 d)

count-insert :
    (k : String) (t : Tier) (d : Dict Tier)
    → count (insert k t d) ≤ count d + (if same_tier t t1 then 1 else 0)
unfolding members insert
count-insert k t [] = ground arith
count-insert k t ((j, u) ∷ d) = ground (arith, count-insert k t d)

count-erase : (k : String) (d : Dict Tier) → count (erase k d) ≤ count d
unfolding members erase
count-erase k [] = ground arith
count-erase k ((j, u) ∷ d) = ground (arith, count-erase k d)

length-keep : {A : Type 0} (p : A → Bool) (xs : List A) → length (keep p xs) ≤ length xs
length-keep p [] = omega arith
length-keep p (x ∷ xs) = ground (arith, length-keep p xs)

module _ {F : Type 0} where
  -- T1 and the provisional places hold no more than their caps allow. T2 is not in it.
  pub record WithinCaps (e : TierEngine F) : Type 0 where
    pub t1 : length (t1_members e) ≤ e.t1_max
    pub provisional : length e.provisional ≤ e.t1_provisional_max

  set_tier-WithinCaps :
      (base : String) (why : Why) (s : List TierChange × TierEngine F)
      → WithinCaps s.1
      → WithinCaps (set_tier base t2 why s).1
  unfolding set_tier
  set_tier-WithinCaps base why s h =
      ground (arith, count-insert (upper base) t2 s.1.tier, h.t1, h.provisional)

  lift-WithinCaps :
      (base : String) (s : List TierChange × TierEngine F)
      → length (t1_members s.1) < s.1.t1_max
      → WithinCaps s.1
      → WithinCaps (set_tier base t1 promoted s).1
  unfolding set_tier
  lift-WithinCaps base s lt h =
      ground (arith, count-insert (upper base) t1 s.1.tier, h.t1, h.provisional)

  add_provisional-WithinCaps :
      (base : String) (e : TierEngine F) → WithinCaps e → WithinCaps (add_provisional base e).1
  unfolding add_provisional
  add_provisional-WithinCaps base e h =
      ground (arith, count-insert (upper base) t1_provisional e.tier, h.t1, h.provisional)

  clear_provisional-WithinCaps :
      (base : String) (e : TierEngine F) → WithinCaps e → WithinCaps (clear_provisional base e)
  unfolding clear_provisional
  clear_provisional-WithinCaps base e h = ground (
    arith,
    count-insert (upper base) t3 (erase (upper base) e.tier),
    count-erase (upper base) e.tier,
    length-keep (λ b. not (str_eq b (upper base))) e.provisional,
    h.t1,
    h.provisional,
  )

  module _ ⦃fl : Floats F⦄ where
    update-WithinCaps :
        (scores : Dict F) (ranking : Option (List String)) (e : TierEngine F)
        → WithinCaps e
        → WithinCaps (update scores ranking e).1
    update-WithinCaps scores ranking e h =
        update-keeps WithinCaps (λ _. Unit)
          (λ d e h. record { t1 = h.t1; provisional = h.provisional }) set_tier-WithinCaps
          (λ x s _ free h. lift-WithinCaps x.0 s free h) scores ranking e
          (λ e' _. All-any (promotable scores e')) h

    step-WithinCaps : (op : Op F) (e : TierEngine F) → WithinCaps e → WithinCaps (step op e)
    step-WithinCaps (scan scores ranking) e h = update-WithinCaps scores ranking e h
    step-WithinCaps (fast_tracks base) e h = add_provisional-WithinCaps base e h
    step-WithinCaps (closes base) e h = clear_provisional-WithinCaps base e h

    -- However scans, fast tracks and closed windows follow each other, an engine whose T1 and
    -- provisional slots are within their caps, as in a new one, stays within them.
    pub run-WithinCaps :
        (ops : List (Op F)) (e : TierEngine F) → WithinCaps e → WithinCaps (run ops e)
    run-WithinCaps [] e h = h
    run-WithinCaps (op ∷ ops) e h = run-WithinCaps ops (step op e) (step-WithinCaps op e h)
