-- ===== src/Data/Stream/Kept.antt =====
-- What the feed keeps of the trades: aimos/data/stream_feed.py.
use aimos.Prelude.{
  ℕ, ◌≤◌, String, ◌≡◌, refl, sym, ◌∙◌, inl, inr, true, false, none, some, List, [], ◌∷◌, arith,
  str_eq, length, All, or_else, Bool-cases, Option-cases, subst,
}
use aimos.Prelude.Int.{ℤ, ◌-ℤ◌, ltb_ℤ}
use aimos.Prelude.Dict.{lookup, insert, lookup-insert}
use aimos.Prelude.Floats.{Floats, ◌≤?◌}
use aimos.Schemas.{LargePrint}
use aimos.Data.Stream.{StreamEvent, Conversions}
use aimos.Data.Stream.Feed.{
  StreamFeed, base_of, book_from_depth, large_print_from_trade, pushed, trim, with_print, handle,
  handle_all, get_trades,
}
use aimos.Data.Stream.Trim.{Rising, Sound, Sound-later, trim-Sound, trim-young, pushed-Sound}

-- No event is older than the one before it, the first not older than the time.
abbrev pub InOrder : {F : Type 0} → ℤ → List (StreamEvent F) → Type 0
InOrder t [] = Unit
InOrder t (e ∷ es) = (ltb_ℤ e.timestamp t ≡ false) × InOrder e.timestamp es

module _ {F : Type 0} ⦃fl : Floats F⦄ where
  abbrev pub Kept : ℤ → StreamFeed F → Type 0
  Kept t f =
      (base : String)
      → Sound f.max_recent_trades f.min_notional_usd t (or_else (lookup base f.trades) [])

  -- Prints as `get_trades` promises them: few, large, no older than the window, the oldest first.
  pub record Fresh (most : ℕ) (least window : F) (now : ℤ) (ps : List (LargePrint F)) : Type 0 where
    pub few : length ps ≤ most
    pub large : All (λ p. (least ≤? p.notional_usd) ≡ true) ps
    pub young : All (λ p. ltb_ℤ p.timestamp (now -ℤ fl.minutes window) ≡ false) ps
    pub rising : Rising ps

  found_trades :
      (f : StreamFeed F) (symbol : String) (now : ℤ) (ps : List (LargePrint F))
      → lookup symbol f.trades ≡ some ps
      → (get_trades symbol now f).0 ≡ trim (now -ℤ fl.minutes f.trade_window_minutes) ps
  unfolding get_trades
  found_trades f symbol now ps h = rw (h, get_trades) refl

  no_trades :
      (f : StreamFeed F) (symbol : String) (now : ℤ)
      → lookup symbol f.trades ≡ none
      → (get_trades symbol now f).0 ≡ []
  unfolding get_trades
  no_trades f symbol now h = rw (h, get_trades) refl

  get_trades-Fresh :
      (f : StreamFeed F) (symbol : String) (now t : ℤ)
      → Kept t f
      → Fresh f.max_recent_trades f.min_notional_usd f.trade_window_minutes now
          (get_trades symbol now f).0
  get_trades-Fresh f symbol now t k =
      let P : List (LargePrint F) → Type 0 =
        Fresh f.max_recent_trades f.min_notional_usd f.trade_window_minutes now in
      elim (Option-cases (lookup symbol f.trades)) [
        | inl e ↦
            subst P (sym (no_trades f symbol now e))
              (record { few = omega arith; large = tt; young = tt; rising = tt })
        | inr (ps, e) ↦
            let cutoff = now -ℤ fl.minutes f.trade_window_minutes in
            let s : Sound f.max_recent_trades f.min_notional_usd t ps =
              subst (λ o. Sound f.max_recent_trades f.min_notional_usd t (or_else o [])) e
                (k symbol) in
            let u = trim-Sound f.max_recent_trades f.min_notional_usd t cutoff ps s in
            subst P (sym (found_trades f symbol now ps e)) (record {
              few = u.few;
              large = u.large;
              young = trim-young cutoff ps s.rising;
              rising = u.rising;
            })
      ]

  module _ (conv : Conversions F) where
    large_print_time :
        (e : StreamEvent F) (lp : LargePrint F)
        → large_print_from_trade conv e ≡ some lp
        → lp.timestamp ≡ e.timestamp
    unfolding large_print_from_trade
    large_print_time e lp h = ground (arith, h)

    with_print-Sound :
        (lp : LargePrint F) (f : StreamFeed F) (ps : List (LargePrint F))
        → Sound f.max_recent_trades f.min_notional_usd lp.timestamp ps
        → Sound f.max_recent_trades f.min_notional_usd lp.timestamp
            (with_print conv lp.timestamp lp f ps)
    unfolding with_print
    with_print-Sound lp f ps s =
        let cutoff = lp.timestamp -ℤ fl.minutes f.trade_window_minutes in
        elim (Bool-cases (f.min_notional_usd ≤? lp.notional_usd)) [
          | inl big ↦ rw (big) (
              trim-Sound f.max_recent_trades f.min_notional_usd lp.timestamp cutoff
                (pushed f.max_recent_trades lp ps)
                (pushed-Sound f.max_recent_trades f.min_notional_usd lp ps big s))
          | inr small ↦
              rw (small)
                (trim-Sound f.max_recent_trades f.min_notional_usd lp.timestamp cutoff ps s)
        ]

    -- Prints that are sound go into the dictionary at one base.
    insert-Kept :
        (t : ℤ) (f : StreamFeed F) (base : String) (ps : List (LargePrint F))
        → Kept t f
        → Sound f.max_recent_trades f.min_notional_usd t ps
        → Kept t (record f { trades = insert base ps f.trades })
    insert-Kept t f base ps k s other = elim (Bool-cases (str_eq base other)) [
      | inl here ↦ rw (lookup-insert base other, here) s
      | inr elsewhere ↦ rw (lookup-insert base other, elsewhere) (k other)
    ]

    handle-Kept :
        (t : ℤ) (e : StreamEvent F) (f : StreamFeed F)
        → ltb_ℤ e.timestamp t ≡ false
        → Kept t f
        → Kept e.timestamp (handle conv e f).1
    unfolding handle
    handle-Kept t e f h k =
        let base = base_of e.symbol in
        let ps = or_else (lookup base f.trades) [] in
        let later : Kept e.timestamp f = λ b.
          Sound-later f.max_recent_trades f.min_notional_usd t e.timestamp
            (or_else (lookup b f.trades) []) h (k b) in
        elim (Bool-cases (str_eq e.kind "book")) [
          | inl book ↦ elim (Option-cases (book_from_depth e)) [
            | inl raised ↦ rw (book) (rw (raised) later)
            | inr (agg, made) ↦ rw (book) (rw (made) later)
          ]
          | inr no_book ↦ elim (Bool-cases (str_eq e.kind "trade")) [
            | inr other ↦ rw (no_book) (rw (other) later)
            | inl trade ↦ elim (Option-cases (large_print_from_trade conv e)) [
              | inl raised ↦
                  rw (no_book) (
                    rw (trade) (rw (raised) (insert-Kept e.timestamp f base ps later (later base))))
              | inr (lp, made) ↦
                  let sound : Sound f.max_recent_trades f.min_notional_usd e.timestamp
                      (with_print conv e.timestamp lp f ps) =
                    subst
                      (λ u.
                        Sound f.max_recent_trades f.min_notional_usd u ps
                        → Sound f.max_recent_trades f.min_notional_usd u
                            (with_print conv u lp f ps))
                      (large_print_time e lp made) (with_print-Sound lp f ps) (later base) in
                  rw (no_book) (
                    rw (trade) (
                      rw (made) (
                        insert-Kept e.timestamp f base (with_print conv e.timestamp lp f ps) later
                          sound)))
            ]
          ]
        ]

    -- The time of the last event.
    abbrev pub time_after : ℤ → List (StreamEvent F) → ℤ
    time_after t [] = t
    time_after t (e ∷ es) = time_after e.timestamp es

    handle_all-Kept :
        (t : ℤ) (es : List (StreamEvent F)) (f : StreamFeed F)
        → InOrder t es
        → Kept t f
        → Kept (time_after t es) (handle_all conv es f)
    unfolding handle_all
    handle_all-Kept t [] f h k = k
    handle_all-Kept t (e ∷ es) f h k =
        handle_all-Kept e.timestamp es (handle conv e f).1 h.1 (handle-Kept t e f h.0 k)

    handle-same :
        (e : StreamEvent F) (f : StreamFeed F)
        → let g = (handle conv e f).1 in
          (g.max_recent_trades ≡ f.max_recent_trades)
          × (g.min_notional_usd ≡ f.min_notional_usd)
          × (g.trade_window_minutes ≡ f.trade_window_minutes)
    unfolding handle
    handle-same e f = (ground arith, ground arith, ground arith)

    handle_all-same :
        (es : List (StreamEvent F)) (f : StreamFeed F)
        → let g = handle_all conv es f in
          (g.max_recent_trades ≡ f.max_recent_trades)
          × (g.min_notional_usd ≡ f.min_notional_usd)
          × (g.trade_window_minutes ≡ f.trade_window_minutes)
    unfolding handle_all
    handle_all-same [] f = (refl, refl, refl)
    handle_all-same (e ∷ es) f =
        let g = handle conv e f in
        let (a, b, c) = handle-same e f in
        let (x, y, z) = handle_all-same es g.1 in (x ∙ a, y ∙ b, z ∙ c)

    -- When no event is older than the one before it, the trades that the feed gives for a symbol, after
    -- any events and at any time, are at most `max_recent_trades`, each of at least the minimal size and
    -- none older than the window, and the oldest first.
    pub get_trades-handle_all :
        (t : ℤ) (es : List (StreamEvent F)) (f : StreamFeed F) (symbol : String) (now : ℤ)
        → InOrder t es
        → Kept t f
        → Fresh f.max_recent_trades f.min_notional_usd f.trade_window_minutes now
            (get_trades symbol now (handle_all conv es f)).0
    get_trades-handle_all t es f symbol now h k =
        let g = handle_all conv es f in
        let ps = (get_trades symbol now g).0 in
        let (few, large, window) = handle_all-same es f in
        let fresh = get_trades-Fresh g symbol now (time_after t es) (handle_all-Kept t es f h k) in
        subst (λ m. Fresh m f.min_notional_usd f.trade_window_minutes now ps) few
          (subst (λ l. Fresh g.max_recent_trades l f.trade_window_minutes now ps) large
            (subst (λ w. Fresh g.max_recent_trades g.min_notional_usd w now ps) window fresh))
