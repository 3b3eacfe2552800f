-- ===== src/Data/Tests.antt =====
-- The theorems of the budgeter at a small budget.
use aimos.Prelude.{
  ℕ, String, ◌≡◌, refl, ◌⊎◌, inl, inr, Bool, true, false, ◌+◌, Option, none, some, List, [], ◌∷◌,
  ◌++◌, map, All, ltb, length,
}
use aimos.Prelude.Int.{ℤ}
use aimos.Prelude.Dict.{lookup}
use aimos.Prelude.Floats.{fixed, nat}
use aimos.Data.RateLimit.{
  Pending, Budgeter, rank_of, queue_of, is_backing_off, acquire, drain, register_limit, Op,
  registers, acquires, run, step,
}
use aimos.Data.Priority.{AllSorted, acquire_never_jumps}
use aimos.Data.Draining.{drain_lem}

abbrev empty : Budgeter ℤ
empty = record {
  utilization_ceiling = fixed.decimal 7 1;
  halve_time = 3600000000;
  window = nat 60;
  priority_classes = "orders" ∷ "candles" ∷ [];
  buckets = [];
  queues = [];
  throttled_until = [];
  halved_until = [];
  next_seq = 0;
  metrics = record { granted = 0; queued = 0; throttled = 0 };
}

empty-AllSorted : AllSorted empty
unfolding lookup
empty-AllSorted exchange = tt

abbrev ops : List (Op ℤ)
ops =
    registers "binance" "orders" (nat 10) 0
    ∷ registers "binance" "candles" (nat 2) 0
    ∷ acquires "binance" "candles" 1 1000
    ∷ acquires "binance" "candles" 1 1000
    ∷ []

-- The second request for candles waits.
waits_test : length (queue_of "binance" (run ops empty)) ≡ 1
unfolding acquire register_limit lookup aimos.Data.RateLimit.bucket_of
    aimos.Data.RateLimit.restore_ceiling aimos.Data.RateLimit.set_bucket
    aimos.Data.RateLimit.is_blocked aimos.Prelude.Dict.insert is_backing_off
    aimos.Data.RateLimit.try_consume aimos.Prelude.Int.◌/ℤ◌ aimos.Data.RateLimit.enqueue
waits_test = refl

granted : (acquire "binance" "orders" 1 2000 (run ops empty)).0 ≡ some true
unfolding acquire register_limit aimos.Data.RateLimit.bucket_of aimos.Data.RateLimit.restore_ceiling
    lookup aimos.Data.RateLimit.set_bucket aimos.Data.RateLimit.is_blocked aimos.Prelude.Dict.insert
    is_backing_off aimos.Data.RateLimit.try_consume aimos.Prelude.Int.◌/ℤ◌
    aimos.Data.RateLimit.enqueue
granted = refl

acquire_never_jumps_example :
    All
      (λ q. ltb q.priority_rank (rank_of "orders" (run ops empty)) ≡ false)
      (queue_of "binance" (run ops empty))
    × (is_backing_off "binance" 2000 (run ops empty) ≡ false)
acquire_never_jumps_example =
    acquire_never_jumps ops empty "binance" "orders" 1 2000 empty-AllSorted granted

drain_lem_test :
    let (answer, b') = drain "binance" 90000000 (run ops empty) in
    (taken : List Pending) × (taken ++ queue_of "binance" b' ≡ queue_of "binance" (run ops empty))
    × (b'.metrics.granted ≡ (run ops empty).metrics.granted + length taken)
    × ((answer ≡ none) ⊎ (answer ≡ some (map (λ p. p.weight_class) taken)))
drain_lem_test = drain_lem "binance" 90000000 (run ops empty)
