-- ===== src/Data/Book/Tests.antt =====
-- Order books at small numbers.
use aimos.Prelude.{
  ℕ, suc, ◌-◌, ◌≤◌, min, ◌≡◌, refl, Option, none, some, List, [], ◌∷◌, length, drop,
}
use aimos.Prelude.Int.{ℤ, pos}
use aimos.Prelude.Floats.{fixed, nat}
use aimos.Data.Book.{Aggregated, missing_side, aggregate_book, simulate_market_order}
use aimos.Data.Book.Walls.{detect_walls}
use aimos.Data.Book.Window.{new_window, add_all, last, add_all-last}

abbrev added : List ℕ
added = 1 ∷ 2 ∷ 3 ∷ 4 ∷ 5 ∷ []

add_all-last_example :
    let w = add_all added (new_window 3) in
    (w.buf ≡ drop (length added - 3) added)
    × (length w.buf ≤ 3)
    × (last 2 w ≡ drop (length added - min 2 3) added)
add_all-last_example = add_all-last 3 1 added

-- `last(0)` is the whole window.
last_zero_test : last 0 (add_all added (new_window 3)) ≡ 3 ∷ 4 ∷ 5 ∷ []
unfolding last add_all aimos.Data.Book.Window.add
last_zero_test = refl

abbrev asks : List (ℤ × ℤ)
asks = (nat 100, nat 1) ∷ (nat 110, nat 5) ∷ []

one_side_test : aggregate_book (pos 0) asks [] (nat 1) ≡ missing_side
unfolding aggregate_book
one_side_test = refl

slippage_test : simulate_market_order asks (nat 100) (nat 100) ≡ some (nat 0)
unfolding simulate_market_order aimos.Prelude.Int.◌/ℤ◌ aimos.Data.Book.walk
slippage_test = refl

walls_test : length (detect_walls asks (nat 100) (nat 20) (nat 1) [] (nat 60)) ≡ 0
unfolding detect_walls aimos.Prelude.Int.◌-ℤ◌ aimos.Prelude.Int.◌/ℤ◌
walls_test = refl
