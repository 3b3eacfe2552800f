-- ===== src/Data/Stream/Trim.antt =====
-- The prints of one deque: `_trim` and the deque of `StreamFeed` of aimos/data/stream_feed.py.
use aimos.Prelude.{
  ℕ, ◌≤◌, ◌≡◌, inl, inr, true, false, List, [], ◌∷◌, ◌++◌, arith, length, length-append, ltb, drop,
  All, All-append, Bool-cases,
}
use aimos.Prelude.Int.{ℤ, ltb_ℤ}
use aimos.Prelude.Floats.{Floats, ◌≤?◌}
use aimos.Schemas.{LargePrint}
use aimos.Data.Stream.Feed.{pushed, trim}

module _ {F : Type 0} ⦃fl : Floats F⦄ where
  abbrev pub Rising : List (LargePrint F) → Type 0
  Rising [] = Unit
  Rising (p ∷ ps) = All (λ q. ltb_ℤ q.timestamp p.timestamp ≡ false) ps × Rising ps

  -- The prints are at most as many as the bound, large, none younger than the time, and the oldest
  -- first.
  pub record Sound (most : ℕ) (least : F) (t : ℤ) (ps : List (LargePrint F)) : Type 0 where
    pub few : length ps ≤ most
    pub large : All (λ p. (least ≤? p.notional_usd) ≡ true) ps
    pub past : All (λ p. ltb_ℤ t p.timestamp ≡ false) ps
    pub rising : Rising ps

  pub All-later :
      (t u : ℤ) (ps : List (LargePrint F))
      → ltb_ℤ u t ≡ false
      → All (λ p. ltb_ℤ t p.timestamp ≡ false) ps
      → All (λ p. ltb_ℤ u p.timestamp ≡ false) ps
  All-later t u [] h k = tt
  All-later t u (p ∷ ps) h k = (ground (arith, h, k.0), All-later t u ps h k.1)

  pub Sound-later :
      (most : ℕ) (least : F) (t u : ℤ) (ps : List (LargePrint F))
      → ltb_ℤ u t ≡ false
      → Sound most least t ps
      → Sound most least u ps
  Sound-later most least t u ps h s = record {
    few = s.few;
    large = s.large;
    past = All-later t u ps h s.past;
    rising = s.rising;
  }

  pub trim-Sound :
      (most : ℕ) (least : F) (t cutoff : ℤ) (ps : List (LargePrint F))
      → Sound most least t ps
      → Sound most least t (trim cutoff ps)
  unfolding trim
  trim-Sound most least t cutoff [] s = s
  trim-Sound most least t cutoff (p ∷ ps) s = elim (Bool-cases (ltb_ℤ p.timestamp cutoff)) [
    | inr young ↦ rw (young) s
    | inl old ↦ rw (old) (
        trim-Sound most least t cutoff ps (record {
          few = omega (arith, s.few);
          large = s.large.1;
          past = s.past.1;
          rising = s.rising.1;
        }))
  ]

  All-young :
      (p : LargePrint F) (cutoff : ℤ) (ps : List (LargePrint F))
      → ltb_ℤ p.timestamp cutoff ≡ false
      → All (λ q. ltb_ℤ q.timestamp p.timestamp ≡ false) ps
      → All (λ q. ltb_ℤ q.timestamp cutoff ≡ false) ps
  All-young p cutoff [] h k = tt
  All-young p cutoff (q ∷ ps) h k = (ground (arith, h, k.0), All-young p cutoff ps h k.1)

  pub trim-young :
      (cutoff : ℤ) (ps : List (LargePrint F))
      → Rising ps
      → All (λ p. ltb_ℤ p.timestamp cutoff ≡ false) (trim cutoff ps)
  unfolding trim
  trim-young cutoff [] h = tt
  trim-young cutoff (p ∷ ps) h = elim (Bool-cases (ltb_ℤ p.timestamp cutoff)) [
    | inr young ↦ rw (young) (young, All-young p cutoff ps young h.0)
    | inl old ↦ rw (old) (trim-young cutoff ps h.1)
  ]

  Rising-append :
      (ps : List (LargePrint F)) (lp : LargePrint F)
      → Rising ps
      → All (λ p. ltb_ℤ lp.timestamp p.timestamp ≡ false) ps
      → Rising (ps ++ lp ∷ [])
  Rising-append [] lp h k = (tt, tt)
  Rising-append (p ∷ ps) lp h k = (
    All-append (λ q. ltb_ℤ q.timestamp p.timestamp ≡ false) ps (lp ∷ []) h.0 (k.0, tt),
    Rising-append ps lp h.1 k.1,
  )

  All-rest : (P : LargePrint F → Type 0) (ps : List (LargePrint F)) → All P ps → All P (drop 1 ps)
  All-rest P [] h = h
  All-rest P (p ∷ ps) h = h.1

  Rising-rest : (ps : List (LargePrint F)) → Rising ps → Rising (drop 1 ps)
  Rising-rest [] h = h
  Rising-rest (p ∷ ps) h = h.1

  pushed-few :
      (m : ℕ) (lp : LargePrint F) (ps : List (LargePrint F))
      → length ps ≤ m
      → length (pushed m lp ps) ≤ m
  pushed-few m lp [] h = ground arith
  pushed-few m lp (p ∷ ps) h = ground (arith, h, length-append ps (lp ∷ []))

  -- A print at the time of its event, which is large, is added to sound prints.
  pub pushed-Sound :
      (most : ℕ) (least : F) (lp : LargePrint F) (ps : List (LargePrint F))
      → (least ≤? lp.notional_usd) ≡ true
      → Sound most least lp.timestamp ps
      → Sound most least lp.timestamp (pushed most lp ps)
  pushed-Sound most least lp ps big s =
      let longer = ps ++ lp ∷ [] in
      let now : ltb_ℤ lp.timestamp lp.timestamp ≡ false = ground arith in
      let large =
        All-append (λ p. (least ≤? p.notional_usd) ≡ true) ps (lp ∷ []) s.large (big, tt) in
      let past =
        All-append (λ p. ltb_ℤ lp.timestamp p.timestamp ≡ false) ps (lp ∷ []) s.past (now, tt) in
      let rising = Rising-append ps lp s.rising s.past in
      let few = pushed-few most lp ps s.few in
      elim (Bool-cases (ltb most (length longer))) [
        | inl full ↦ record {
          few = few;
          large = rw (full) (All-rest (λ p. (least ≤? p.notional_usd) ≡ true) longer large);
          past = rw (full) (All-rest (λ p. ltb_ℤ lp.timestamp p.timestamp ≡ false) longer past);
          rising = rw (full) (Rising-rest longer rising);
        }
        | inr room ↦ record {
          few = few;
          large = rw (room) large;
          past = rw (room) past;
          rising = rw (room) rising;
        }
      ]
