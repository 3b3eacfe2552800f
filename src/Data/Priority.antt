-- ===== src/Data/Priority.antt =====
-- Priorities: the order of the queues, what jumps over it and what a drain releases.
use aimos.Prelude.{
  ℕ, String, ◌≡◌, refl, inl, inr, Bool, true, false, ◌||◌, none, some, List, [], ◌∷◌, arith, All,
  str_eq, ltb, leb, Bool-cases, Option-cases, or_else,
}
use aimos.Prelude.Dict.{lookup, insert, lookup-insert}
use aimos.Prelude.Floats.{Floats, nat}
use aimos.Data.RateLimit.{
  Pending, heappush, is_blocked, Budgeter, bucket_of, set_bucket, try_consume, rank_of, queue_of,
  is_backing_off, register_limit, note_throttle, restore_ceiling, enqueue, acquire, drain_queue,
  drain, Op, registers, throttles, acquires, drains, run,
}
use aimos.Data.Order.{Sorted, heappush-Sorted, Sorted-ranks, Sorted-left}
use aimos.Data.Released.{drain_queue_lem, restore-queues}

module _ {F : Type 0} where
  -- Every queue is in order.
  abbrev pub AllSorted : Budgeter F → Type 0
  AllSorted b = (exchange : String) → Sorted (queue_of exchange b)

  insert-AllSorted :
      (exchange : String) (qs : List Pending) (b : Budgeter F)
      → Sorted qs
      → AllSorted b
      → AllSorted (record b { queues = insert exchange qs b.queues })
  insert-AllSorted exchange qs b h k other =
      rw (lookup-insert exchange other qs b.queues)
        (elim (Bool-cases (str_eq exchange other)) [ inl e ↦ rw (e) h | inr e ↦ rw (e) (k other) ])

  module _ ⦃fl : Floats F⦄ where
    enqueue-AllSorted :
        (exchange c : String) (cost : ℕ) (b : Budgeter F)
        → AllSorted b
        → AllSorted (enqueue exchange c cost b)
    unfolding enqueue
    enqueue-AllSorted exchange c cost b h other =
        let p : Pending = record {
          priority_rank = rank_of c b;
          seq = b.next_seq;
          cost = cost;
          weight_class = c;
        } in
        insert-AllSorted exchange (heappush p (queue_of exchange b)) b
          (heappush-Sorted p (queue_of exchange b) (h exchange)) h other

    acquire-AllSorted :
        (exchange c : String) (cost now : ℕ) (b : Budgeter F)
        → AllSorted b
        → AllSorted (acquire exchange c cost now b).1
    unfolding acquire
    acquire-AllSorted exchange c cost now b h =
        let b0 = restore_ceiling exchange now b in
        let h0 : AllSorted b0 = λ other. rw (restore-queues exchange now b) (h other) in
        elim (Option-cases (bucket_of exchange c b0.buckets)) [
          | inl e ↦ rw (e, acquire) h0
          | inr (k, e) ↦
              let (ok, k') = try_consume (nat cost) now k in
              let b1 = record b0 { buckets = set_bucket exchange c k' b0.buckets } in
              elim (Bool-cases (
                is_blocked (queue_of exchange b0) (rank_of c b0)
                || is_backing_off exchange now b0)) [
                  | inl waits ↦
                      rw (e, acquire) (rw (waits) (enqueue-AllSorted exchange c cost b0 h0))
                  | inr free ↦ elim (Bool-cases ok) [
                    | inl served ↦ rw (e, acquire) (rw (free) (rw (served) h0))
                    | inr short ↦
                        rw (e, acquire)
                          (rw (free) (rw (short) (enqueue-AllSorted exchange c cost b1 h0)))
                  ]
                ]
        ]

    drain-AllSorted :
        (exchange : String) (now : ℕ) (b : Budgeter F)
        → AllSorted b
        → AllSorted (drain exchange now b).1
    unfolding drain
    drain-AllSorted exchange now b h =
        let b0 = restore_ceiling exchange now b in
        let h0 : AllSorted b0 = λ other. rw (restore-queues exchange now b) (h other) in
        elim (Bool-cases (is_backing_off exchange now b0)) [
          | inl waits ↦ rw (waits, drain) h0
          | inr free ↦ elim (Option-cases (lookup exchange b0.queues)) [
            | inl e ↦ rw (free, drain) (rw (e) h0)
            | inr (queue, e) ↦
                let (_, left, b1) = drain_queue exchange now queue [] b0 in
                let (same, (taken, split, _, _)) = drain_queue_lem exchange now queue [] b0 in
                let sorted : Sorted queue = (rw (e) at (h0 exchange)) in
                rw (free, drain)
                  (rw (e) (
                    insert-AllSorted exchange left b1
                      (Sorted-left taken left (rw (← split) at sorted))
                      (λ other. rw (same) (h0 other))))
          ]
        ]

    register-AllSorted :
        (exchange c : String) (limit : F) (now : ℕ) (b : Budgeter F)
        → AllSorted b
        → AllSorted (register_limit exchange c limit now b)
    unfolding register_limit
    register-AllSorted exchange c limit now b h = elim (Option-cases (lookup exchange b.queues)) [
      | inl e ↦ rw (e, register_limit) (insert-AllSorted exchange [] b tt h)
      | inr (q, e) ↦ rw (e, register_limit) h
    ]

    run-AllSorted : (ops : List (Op F)) (b : Budgeter F) → AllSorted b → AllSorted (run ops b)
    run-AllSorted [] b h = h
    run-AllSorted (registers exchange c limit now ∷ ops) b h =
        run-AllSorted ops (register_limit exchange c limit now b)
          (register-AllSorted exchange c limit now b h)
    run-AllSorted (throttles exchange retry now ∷ ops) b h =
        run-AllSorted ops (note_throttle exchange retry now b).1 (unfold note_throttle in h)
    run-AllSorted (acquires exchange c cost now ∷ ops) b h =
        run-AllSorted ops (acquire exchange c cost now b).1
          (acquire-AllSorted exchange c cost now b h)
    run-AllSorted (drains exchange now ∷ ops) b h =
        run-AllSorted ops (drain exchange now b).1 (drain-AllSorted exchange now b h)

    -- What `acquire` tests before it takes tokens.
    abbrev is_held : String → String → ℕ → Budgeter F → Bool
    is_held exchange c now b =
        is_blocked (queue_of exchange b) (rank_of c b) || is_backing_off exchange now b

    restore-blocked :
        (exchange c : String) (now : ℕ) (b : Budgeter F)
        → is_held exchange c now (restore_ceiling exchange now b) ≡ is_held exchange c now b
    unfolding restore_ceiling is_backing_off
    restore-blocked exchange c now b =
        elim (Option-cases (or_else (lookup exchange b.halved_until) none)) [
          | inl e ↦ rw (e, restore_ceiling) refl
          | inr (until, e) ↦ elim (Bool-cases (leb until now)) [
            | inl over ↦ rw (e, restore_ceiling) (rw (over) refl)
            | inr early ↦ rw (e, restore_ceiling) (rw (early) refl)
          ]
        ]

    acquire-unblocked :
        (exchange c : String) (cost now : ℕ) (b : Budgeter F)
        → (acquire exchange c cost now b).0 ≡ some true
        → is_held exchange c now (restore_ceiling exchange now b) ≡ false
    unfolding acquire
    acquire-unblocked exchange c cost now b e = ground (arith, e)

    acquire-free :
        (exchange c : String) (cost now : ℕ) (b : Budgeter F)
        → (acquire exchange c cost now b).0 ≡ some true
        → (is_blocked (queue_of exchange b) (rank_of c b) ≡ false)
          × (is_backing_off exchange now b ≡ false)
    acquire-free exchange c cost now b e =
        ground (arith, acquire-unblocked exchange c cost now b e, restore-blocked exchange c now b)

    -- Whatever was registered, throttled, acquired and drained before: a request that is granted at once
    -- overtakes no waiting one of its exchange with a higher priority, and its exchange is not backing
    -- off.
    pub acquire_never_jumps :
        (ops : List (Op F)) (start : Budgeter F) (exchange c : String) (cost now : ℕ)
        → AllSorted start
        → (acquire exchange c cost now (run ops start)).0 ≡ some true
        → All
            (λ q. ltb q.priority_rank (rank_of c (run ops start)) ≡ false)
            (queue_of exchange (run ops start))
          × (is_backing_off exchange now (run ops start) ≡ false)
    acquire_never_jumps ops start exchange c cost now h e =
        let b = run ops start in
        let (free, ready) = acquire-free exchange c cost now b e in
        (
          Sorted-ranks (rank_of c b) (queue_of exchange b) (run-AllSorted ops start h exchange)
              free,
          ready,
        )
