-- ===== src/Universe/Scan.antt =====
-- What a scan keeps: whatever its three loops keep.
use aimos.Prelude.{
  ℕ, String, inl, inr, ◌+◌, ◌<◌, ◌++◌, Option, List, [], ◌∷◌, arith, All, length, leb, or_else,
  Bool-cases,
}
use aimos.Prelude.Dict.{Dict, lookup}
use aimos.Prelude.Floats.{Floats, ◌<?◌, nat}
use aimos.Prelude.Text.{upper}
use aimos.Universe.Tiers.{
  t1, t2, Why, TierChange, hysteresis, promoted, watch_rank, TierEngine, t1_members, set_tier,
  set_streak, drop_streak, demote_one, demote_all, promotable, promote_all, ranking_of, rank_all,
  update,
}

-- `P` does not look at the streaks, is kept by a move to T2, and by a move to T1 of a base that may be
-- promoted while there is a place.
module _ {F : Type 0} ⦃fl : Floats F⦄ (P : TierEngine F → Type 0) (Ok : String × F → Type 0)
    (streak : (d : Dict ℕ) (e : TierEngine F) → P e → P (record e { below_streak = d }))
    (down : (base : String) (why : Why) (s : List TierChange × TierEngine F)
      → P s.1
      → P (set_tier base t2 why s).1)
    (up : (x : String × F) (s : List TierChange × TierEngine F)
      → Ok x
      → length (t1_members s.1) < s.1.t1_max
      → P s.1
      → P (set_tier x.0 t1 promoted s).1) where
  demote_one-keeps :
      (scores : Dict F) (base : String) (s : List TierChange × TierEngine F)
      → P s.1
      → P (demote_one scores base s).1
  unfolding demote_one
  demote_one-keeps scores base (sink, e) h =
      let n = or_else (lookup base e.below_streak) 0 + 1 in
      let counted = set_streak base n (sink, e) in
      let fell = set_tier base t2 hysteresis counted in
      let kept : P counted.1 = streak counted.1.below_streak e h in
      elim (Bool-cases (or_else (lookup base scores) (nat 0) <? e.demote)) [
        | inl low ↦ elim (Bool-cases (leb e.demote_scans n)) [
          | inl often ↦
              rw (low, demote_one)
                (rw (often) (
                  streak (drop_streak base fell).1.below_streak fell.1
                    (down base hysteresis counted kept)))
          | inr seldom ↦ rw (low, demote_one) (rw (seldom) kept)
        ]
        | inr high ↦ rw (high, demote_one) (streak (set_streak base 0 (sink, e)).1.below_streak e h)
      ]

  demote_all-keeps :
      (scores : Dict F) (bases : List String) (s : List TierChange × TierEngine F)
      → P s.1
      → P (demote_all scores bases s).1
  unfolding demote_all
  demote_all-keeps scores [] s h = h
  demote_all-keeps scores (base ∷ bases) s h =
      demote_all-keeps scores bases (demote_one scores base s) (demote_one-keeps scores base s h)

  promote_all-keeps :
      (bases : Dict F) (s : List TierChange × TierEngine F)
      → All Ok bases
      → P s.1
      → P (promote_all bases s).1
  unfolding promote_all
  promote_all-keeps [] s _ h = h
  promote_all-keeps (x ∷ bases) s ok h =
      let lifted = set_tier x.0 t1 promoted s in
      elim (Bool-cases (leb s.1.t1_max (length (t1_members s.1)))) [
        | inl full ↦ rw (full, promote_all) h
        | inr free ↦
            rw (free, promote_all)
              (promote_all-keeps bases (set_streak x.0 0 lifted) ok.1 (
                streak (set_streak x.0 0 lifted).1.below_streak lifted.1
                  (up x s ok.0 (ground (arith, free)) h)))
      ]

  rank_all-keeps :
      (held bases : List String) (placed : ℕ) (s : List TierChange × TierEngine F)
      → P s.1
      → P (rank_all held bases placed s).1
  unfolding rank_all
  rank_all-keeps held [] placed s h = h
  rank_all-keeps held (raw ∷ bases) placed s h =
      let base = upper raw in
      ground (
        arith,
        h,
        rank_all-keeps held bases placed s h,
        rank_all-keeps held bases (placed + 1) s h,
        rank_all-keeps held bases (placed + 1) (set_tier base t2 watch_rank s)
            (down base watch_rank s h),
      )

  pub update-keeps :
      (scores : Dict F) (ranking : Option (List String)) (e : TierEngine F)
      → ((e' : TierEngine F) → P e' → All Ok (promotable scores e'))
      → P e
      → P (update scores ranking e).1
  unfolding update
  update-keeps scores ranking e ok h =
      let demoted = demote_all scores (t1_members e) ([], e) in
      let lifted = promote_all (promotable scores demoted.1) demoted in
      let kept = demote_all-keeps scores (t1_members e) ([], e) h in
      rank_all-keeps (t1_members lifted.1 ++ lifted.1.provisional) (ranking_of ranking scores) 0
        lifted (promote_all-keeps (promotable scores demoted.1) demoted (ok demoted.1 kept) kept)
