-- ===== src/Data/RateLimit/Buckets.antt =====
-- The token bucket and the queue of aimos/data/ratelimit.py.
use aimos.Prelude.{
  ℕ, String, Bool, true, false, ◌&&◌, ◌||◌, ◌-◌, List, [], ◌∷◌, ltb, leb, ◌==◌, if◌then◌else◌,
}
use aimos.Prelude.Int.{pos}
use aimos.Prelude.Floats.{Floats, ◌⊕◌, ◌⊖◌, ◌⊗◌, ◌⊘◌, ◌≤?◌, fmin}

pub record BudgeterMetrics : Type 0 where
  pub granted : ℕ
  pub queued : ℕ
  pub throttled : ℕ

pub record Pending : Type 0 where
  pub priority_rank : ℕ
  pub seq : ℕ
  pub cost : ℕ
  pub weight_class : String

-- The order of the dataclass: by rank, then by number.
unfoldable pub is_before : Pending → Pending → Bool
is_before p q =
    ltb p.priority_rank q.priority_rank || ((p.priority_rank == q.priority_rank) && ltb p.seq q.seq)

-- `heapq.heappush`
unfoldable pub heappush : Pending → List Pending → List Pending
unfolding is_before
heappush p [] = p ∷ []
heappush p (q ∷ qs) = let rest = heappush p qs in if is_before p q then p ∷ (q ∷ qs) else q ∷ rest

-- Higher-priority work waits in front.
unfoldable pub is_blocked : List Pending → ℕ → Bool
is_blocked [] rank = false
is_blocked (p ∷ _) rank = ltb p.priority_rank rank

pub record TokenBucket (F : Type 0) : Type 0 where
  pub base_capacity : F
  pub capacity : F
  pub window : F
  pub tokens : F
  pub last : ℕ

module _ {F : Type 0} ⦃fl : Floats F⦄ where
  unfoldable pub new_bucket : F → F → ℕ → TokenBucket F
  new_bucket capacity window now = record {
    base_capacity = capacity;
    capacity = capacity;
    window = window;
    tokens = capacity;
    last = now;
  }

  unfoldable pub set_ceiling_fraction : F → TokenBucket F → TokenBucket F
  set_ceiling_fraction fraction b =
      let capacity = b.base_capacity ⊗ fraction in
      record b { capacity = capacity; tokens = fmin b.tokens capacity }

  -- `_refill`
  unfoldable pub refill : ℕ → TokenBucket F → TokenBucket F
  refill now b =
      if leb now b.last
      then b
      else let elapsed = fl.total_seconds (pos (now - b.last)) in
        let rate = b.capacity ⊘ b.window in
        record b { tokens = fmin b.capacity (b.tokens ⊕ (elapsed ⊗ rate)); last = now }

  unfoldable pub available : ℕ → TokenBucket F → F × TokenBucket F
  unfolding refill
  available now b = let b' = refill now b in (b'.tokens, b')

  unfoldable pub try_consume : F → ℕ → TokenBucket F → Bool × TokenBucket F
  unfolding refill
  try_consume cost now b =
      let b = refill now b in
      if cost ≤? b.tokens then (true, record b { tokens = b.tokens ⊖ cost }) else (false, b)
