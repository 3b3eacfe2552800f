-- ===== src/Data/RateLimit.antt =====
-- The rate-limit budgeter: aimos/data/ratelimit.py. Times are in microseconds. A heap is the list of its
-- requests in ascending order, of which the source reads only the first.
mod Buckets
unfoldable pub use Buckets.*
use aimos.Prelude.{
  ℕ, suc, String, Bool, true, false, ◌&&◌, ◌||◌, ◌+◌, ◌-◌, Option, none, some, List, [], ◌∷◌, ◌++◌,
  map, str_eq, ltb, leb, ◌==◌, length, if◌then◌else◌, is_some, or_else,
}
use aimos.Prelude.Int.{pos}
use aimos.Prelude.Dict.{Dict, lookup, insert}
use aimos.Prelude.Floats.{Floats, ◌⊕◌, ◌⊖◌, ◌⊗◌, ◌⊘◌, ◌≤?◌, nat, fmin}

-- `_buckets`, keyed by the exchange and the weight class, in insertion order.
abbrev pub Buckets : Type 0 → Type 0
Buckets F = List (String × String × TokenBucket F)

pub record Budgeter (F : Type 0) : Type 0 where
  pub utilization_ceiling : F
  pub halve_time : ℕ
  pub window : F
  pub priority_classes : List String
  pub buckets : Buckets F
  pub queues : Dict (List Pending)
  pub throttled_until : Dict ℕ
  pub halved_until : Dict (Option ℕ)
  pub next_seq : ℕ
  pub metrics : BudgeterMetrics

-- `self._rank`: the last place of the class in the list, which the dict keeps.
unfoldable pub place_of : String → List String → ℕ → Option ℕ
place_of c [] _ = none
place_of c (d ∷ ds) i = elim (place_of c ds (i + 1)) [
  | some j ↦ some j
  | none ↦ if str_eq d c then some i else none
]

-- `len(self._rank)`: the number of the different classes of the list
unfoldable pub distinct : List String → ℕ
unfolding place_of
distinct [] = 0
distinct (c ∷ cs) = let n = distinct cs in if is_some (place_of c cs 0) then n else suc n

module _ {F : Type 0} where
  -- `_rank_of`
  abbrev pub rank_of : String → Budgeter F → ℕ
  rank_of c b = or_else (place_of c b.priority_classes 0) (distinct b.priority_classes)

  unfoldable pub bucket_of : String → String → Buckets F → Option (TokenBucket F)
  bucket_of exchange c [] = none
  bucket_of exchange c ((e, d, k) ∷ bs) =
      let rest = bucket_of exchange c bs in if str_eq e exchange && str_eq d c then some k else rest

  unfoldable pub set_bucket : String → String → TokenBucket F → Buckets F → Buckets F
  set_bucket exchange c k [] = (exchange, c, k) ∷ []
  set_bucket exchange c k ((e, d, old) ∷ bs) =
      let rest = set_bucket exchange c k bs in
      if str_eq e exchange && str_eq d c then (e, d, k) ∷ bs else (e, d, old) ∷ rest

  abbrev pub queue_of : String → Budgeter F → List Pending
  queue_of exchange b = or_else (lookup exchange b.queues) []

  unfoldable pub is_backing_off : String → ℕ → Budgeter F → Bool
  is_backing_off exchange now b = elim (lookup exchange b.throttled_until) [
    | none ↦ false
    | some until ↦ ltb now until
  ]

  module _ ⦃fl : Floats F⦄ where
    unfoldable pub register_limit : String → String → F → ℕ → Budgeter F → Budgeter F
    unfolding new_bucket
    register_limit exchange c published_limit now b = record b {
      buckets =
          set_bucket exchange c (new_bucket (published_limit ⊗ b.utilization_ceiling) b.window now)
            b.buckets;
      queues = elim (lookup exchange b.queues) [
        | none ↦ insert exchange [] b.queues
        | some _ ↦ b.queues
      ];
    }

    -- `set_ceiling_fraction` on the buckets of one exchange.
    abbrev pub scale_all : String → F → Buckets F → Buckets F
    scale_all exchange fraction bs =
        map
          (λ x. (x.0, x.1, if str_eq x.0 exchange then set_ceiling_fraction fraction x.2 else x.2))
          bs

    -- `note_throttle`; the backoff in microseconds, one second if the venue names none.
    unfoldable pub note_throttle : String → Option ℕ → ℕ → Budgeter F → ℕ × Budgeter F
    note_throttle exchange retry_after now b =
        let backoff = or_else retry_after 1000000 in
        (
          backoff,
          record b {
            halved_until = insert exchange (some (now + b.halve_time)) b.halved_until;
            buckets = scale_all exchange (fl.decimal 5 1) b.buckets;
            throttled_until = insert exchange (now + backoff) b.throttled_until;
            metrics = record b.metrics { throttled = suc b.metrics.throttled };
          },
        )

    -- `_maybe_restore_ceiling`
    unfoldable pub restore_ceiling : String → ℕ → Budgeter F → Budgeter F
    restore_ceiling exchange now b = elim (or_else (lookup exchange b.halved_until) none) [
      | none ↦ b
      | some until ↦
          if leb until now
          then record b {
            halved_until = insert exchange none b.halved_until;
            buckets = scale_all exchange (nat 1) b.buckets;
          }
          else b
    ]

    abbrev pub grant : String → String → TokenBucket F → Budgeter F → Budgeter F
    grant exchange c k b = record b {
      buckets = set_bucket exchange c k b.buckets;
      metrics = record b.metrics { granted = suc b.metrics.granted };
    }

    unfoldable pub enqueue : String → String → ℕ → Budgeter F → Budgeter F
    unfolding heappush place_of
    enqueue exchange c cost b =
        let p : Pending = record {
          priority_rank = rank_of c b;
          seq = b.next_seq;
          cost = cost;
          weight_class = c;
        } in
        record b {
          queues = insert exchange (heappush p (queue_of exchange b)) b.queues;
          next_seq = suc b.next_seq;
          metrics = record b.metrics { queued = suc b.metrics.queued };
        }

    -- `acquire`; `none` is the KeyError of an exchange and class without a bucket.
    unfoldable pub acquire : String → String → ℕ → ℕ → Budgeter F → Option Bool × Budgeter F
    acquire exchange c cost now b =
        let b = restore_ceiling exchange now b in
        elim (bucket_of exchange c b.buckets) [
          | none ↦ (none, b)
          | some k ↦
              if is_blocked (queue_of exchange b) (rank_of c b) || is_backing_off exchange now b
              then (some false, enqueue exchange c cost b)
              else let (ok, k') = try_consume (nat cost) now k in
                if ok then (some true, grant exchange c k' b) else (
                  some false,
                  enqueue exchange c cost
                      (record b { buckets = set_bucket exchange c k' b.buckets }),
                )
        ]

    -- The loop of `drain` on the queue: what is granted, what stays, and the buckets and metrics.
    -- `none` is the KeyError of a request without a bucket.
    unfoldable pub drain_queue :
        String
        → ℕ
        → List Pending
        → List String
        → Budgeter F
        → Option (List String) × List Pending × Budgeter F
    drain_queue exchange now [] granted b = (some granted, [], b)
    drain_queue exchange now (p ∷ queue) granted b =
        elim (bucket_of exchange p.weight_class b.buckets) [
          | none ↦ (none, p ∷ queue, b)
          | some k ↦
              let (ok, k') = try_consume (nat p.cost) now k in
              let more =
                drain_queue exchange now queue (granted ++ p.weight_class ∷ [])
                  (grant exchange p.weight_class k' b) in
              if ok then more else (
                some granted,
                p ∷ queue,
                record b { buckets = set_bucket exchange p.weight_class k' b.buckets },
              )
        ]

    unfoldable pub drain : String → ℕ → Budgeter F → Option (List String) × Budgeter F
    drain exchange now b =
        let b = restore_ceiling exchange now b in
        if is_backing_off exchange now b then (some [], b) else elim (lookup exchange b.queues) [
          | none ↦ (some [], b)
          | some queue ↦
              let (granted, left, b') = drain_queue exchange now queue [] b in
              (granted, record b' { queues = insert exchange left b'.queues })
        ]

    abbrev pub queue_depth : String → Budgeter F → ℕ
    queue_depth exchange b = length (queue_of exchange b)

-- The calls that change a budgeter, and a series of them.
pub data Op (F : Type 0) : Type 0 where
  registers : String → String → F → ℕ → Op F
  throttles : String → Option ℕ → ℕ → Op F
  acquires : String → String → ℕ → ℕ → Op F
  drains : String → ℕ → Op F

module _ {F : Type 0} ⦃fl : Floats F⦄ where
  abbrev pub step : Op F → Budgeter F → Budgeter F
  step (registers exchange c limit now) b = register_limit exchange c limit now b
  step (throttles exchange retry now) b = (note_throttle exchange retry now b).1
  step (acquires exchange c cost now) b = (acquire exchange c cost now b).1
  step (drains exchange now) b = (drain exchange now b).1

  abbrev pub run : List (Op F) → Budgeter F → Budgeter F
  run [] b = b
  run (op ∷ ops) b = run ops (step op b)
