-- ===== src/Universe/Registry.antt =====
-- The asset registry: aimos/universe/registry.py.
use aimos.Prelude.{
  String, ◌≡◌, refl, inl, inr, Bool, true, false, not, ◌&&◌, Option, none, some, List, [], ◌∷◌,
  arith, str_eq, eq_iff, keep, or_else, if◌then◌else◌, Option-cases, Bool-cases,
}
use aimos.Prelude.Dict.{Dict, lookup, insert, lookup-insert}
use aimos.Prelude.Text.{upper}
use aimos.Universe.Tiers.{member}
use aimos.Universe.Filters.{MarketInfo}

pub record TradableInfo : Type 0 where
  pub market : MarketInfo
  pub active : Bool

pub record Registry : Type 0 where
  pub primary_exchange : String
  pub by_base : Dict (Dict TradableInfo)
  pub suspended_quotes : List String

-- `self._by_base.get(base, {})`
abbrev pub venue_map : String → Registry → Dict TradableInfo
venue_map base r = or_else (lookup base r.by_base) []

unfoldable pub add_market : MarketInfo → Registry → Registry
add_market m r =
    let base = upper m.base in
    record r {
      by_base =
          insert base (insert m.exchange (record { market = m; active = true }) (venue_map base r))
            r.by_base;
    }

unfoldable pub add_all : List MarketInfo → Registry → Registry
unfolding add_market
add_all [] r = r
add_all (m ∷ ms) r = add_all ms (add_market m r)

unfoldable pub is_quote_suspended : String → Registry → Bool
is_quote_suspended q r = member (upper q) r.suspended_quotes

-- The venues of a map whose entry passes a test.
abbrev pub venues_of : (TradableInfo → Bool) → Dict TradableInfo → List String
venues_of p [] = []
venues_of p ((v, ti) ∷ d) = let rest = venues_of p d in if p ti then v ∷ rest else rest

unfoldable pub venues : String → Registry → List String
unfolding is_quote_suspended
venues base r =
    venues_of (λ ti. ti.active && not (is_quote_suspended ti.market.quote r))
      (venue_map (upper base) r)

-- `ti.market if ti and ti.active else None`
abbrev active_market : Option TradableInfo → Option MarketInfo
active_market none = none
active_market (some ti) = if ti.active then some ti.market else none

unfoldable pub market : String → String → Registry → Option MarketInfo
market base venue r = active_market (lookup venue (venue_map (upper base) r))

abbrev pub primary_market : String → Registry → Option MarketInfo
primary_market base r = market base r.primary_exchange r

unfoldable pub suspend_quote : String → Registry → Registry
suspend_quote q r = record r { suspended_quotes = upper q ∷ r.suspended_quotes }

unfoldable pub resume_quote : String → Registry → Registry
resume_quote q r = record r {
  suspended_quotes = keep (λ x. not (str_eq x (upper q))) r.suspended_quotes;
}

pub record Delisting : Type 0 where
  pub base : String
  pub delisted_venue : String
  pub remaining_venues : List String
  pub cross_venue_flatten : Bool

-- `venue_map[venue].active = False` if the venue is there.
unfoldable pub deactivate : String → Dict TradableInfo → Dict TradableInfo
deactivate venue d = elim (lookup venue d) [
  | none ↦ d
  | some ti ↦ insert venue (record ti { active = false }) d
]

abbrev pub is_nonempty : List String → Bool
is_nonempty [] = false
is_nonempty (_ ∷ _) = true

-- The venue map of an unknown base is a new dict, which is dropped.
unfoldable pub delist : String → String → Registry → Delisting × Registry
unfolding deactivate
delist raw venue r =
    let base = upper raw in
    let d = deactivate venue (venue_map base r) in
    let remaining = venues_of (λ ti. ti.active) d in
    (
      record {
        base = base;
        delisted_venue = venue;
        remaining_venues = remaining;
        cross_venue_flatten = is_nonempty remaining;
      },
      elim (lookup base r.by_base) [
        | none ↦ r
        | some _ ↦ record r { by_base = insert base d r.by_base }
      ],
    )

market-add_market :
    (m : MarketInfo) (r : Registry) (base venue : String)
    → market base venue (add_market m r) ≡ (
        if str_eq (upper m.base) (upper base) && str_eq m.exchange venue
        then some m
        else market base venue r)
unfolding market add_market
market-add_market m r base venue =
    let new =
      insert m.exchange (record { market = m; active = true }) (venue_map (upper m.base) r) in
    ground (
      arith,
      eq_iff (upper m.base) (upper base),
      eq_iff m.exchange venue,
      lookup-insert (upper m.base) (upper base) new r.by_base,
      lookup-insert m.exchange venue (record { market = m; active = true })
          (venue_map (upper m.base) r),
    )

deactivate-lookup :
    (venue v : String) (d : Dict TradableInfo)
    → active_market (lookup v (deactivate venue d))
      ≡ (if str_eq venue v then none else active_market (lookup v d))
unfolding deactivate
deactivate-lookup venue v d = elim (Option-cases (lookup venue d)) [
  | inl e ↦
      rw (e, deactivate)
        (elim (Bool-cases (str_eq venue v)) [
          | inl same ↦ rw (same, ← (eq_iff venue v).0 same, e) refl
          | inr other ↦ rw (other) refl
        ])
  | inr (ti, e) ↦
      rw (e, deactivate)
        (rw (lookup-insert venue v (record ti { active = false }) d)
          (elim (Bool-cases (str_eq venue v)) [
            | inl same ↦ rw (same) refl
            | inr other ↦ rw (other) refl
          ]))
]

-- What the delisting leaves of the venues of a base, for the base `b` in upper case.
venue_map-delist :
    (raw venue : String) (r : Registry) (b : String)
    → venue_map b (delist raw venue r).1
      ≡ (if str_eq (upper raw) b then deactivate venue (venue_map b r) else venue_map b r)
unfolding delist
venue_map-delist raw venue r b = elim (Option-cases (lookup (upper raw) r.by_base)) [
  | inl e ↦
      rw (e, delist)
        (elim (Bool-cases (str_eq (upper raw) b)) [
          | inl same ↦
              rw (same, ← (eq_iff (upper raw) b).0 same, e) (unfold deactivate lookup in refl)
          | inr other ↦ rw (other) refl
        ])
  | inr (old, e) ↦
      rw (e, delist)
        (rw (lookup-insert (upper raw) b (deactivate venue (venue_map (upper raw) r)) r.by_base)
          (elim (Bool-cases (str_eq (upper raw) b)) [
            | inl same ↦ rw (same, ← (eq_iff (upper raw) b).0 same) refl
            | inr other ↦ rw (other) refl
          ]))
]

market-delist :
    (raw venue : String) (r : Registry) (base v : String)
    → market base v (delist raw venue r).1
      ≡ (if str_eq (upper raw) (upper base) && str_eq venue v then none else market base v r)
unfolding market
market-delist raw venue r base v =
    rw (venue_map-delist raw venue r (upper base))
      (elim (Bool-cases (str_eq (upper raw) (upper base))) [
        | inl same ↦ rw (same) (deactivate-lookup venue v (venue_map (upper base) r))
        | inr other ↦ rw (other) refl
      ])

-- A market that was added is found under its base, whatever the case of its letters, and its venue,
-- also where another was before; one that is delisted is found no more. In both cases every other
-- market is found as before.
pub market_lem :
    (m : MarketInfo) (raw venue : String) (r : Registry) (base v : String)
    → (market base v (add_market m r) ≡ (
        if str_eq (upper m.base) (upper base) && str_eq m.exchange v
        then some m
        else market base v r))
      × (market base v (delist raw venue r).1
          ≡ (if str_eq (upper raw) (upper base) && str_eq venue v then none else market base v r))
market_lem m raw venue r base v = (market-add_market m r base v, market-delist raw venue r base v)
