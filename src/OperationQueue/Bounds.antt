-- ===== src/OperationQueue/Bounds.antt =====
-- What holds in every state that the steps of a queue of operations lead to.
use pwned.Base.{ℕ, suc, ◌+◌, ◌≤◌, ◌≡◌, ◌≢◌, refl, ap, arith, List, [], ◌∷◌, length, length-append}
use pwned.OperationQueue.{
  Operation, push_op, Executor, waiting, admitted, Queue, Step, Steps, executing,
}

-- The permit that the executing thread holds.
abbrev pub held : Executor → ℕ
held admitted = 1
held _ = 0

-- The permits of the semaphore and those that were given out.
abbrev pub permits : Queue → ℕ
permits q = q.capacity + length q.running_ops + q.notifying + held q.executor

-- The executing thread has seen an operation that it has not taken yet.
abbrev pub has_seen : Executor → ℕ
has_seen waiting = 1
has_seen admitted = 1
has_seen _ = 0

pub record IsSafe (n : ℕ) (q : Queue) : Type 0 where
  pub all_permits : permits q ≡ n
  pub still_there : has_seen q.executor ≤ length q.unscheduled_ops

length-push_op :
    (op : Operation) (ops : List Operation) → length (push_op op ops) ≡ suc (length ops)
unfolding push_op
length-push_op op [] = refl
length-push_op op (top ∷ ops) = ground (arith, length-push_op op ops)

Step-IsSafe : (n : ℕ) (q r : Queue) → IsSafe n q → Step q r → IsSafe n r
Step-IsSafe n q r h (Step.add _ op) = record {
  all_permits = h.all_permits;
  still_there = omega (arith, h.still_there, length-push_op op q.unscheduled_ops);
}
Step-IsSafe n q r h (Step.more _ op ops e e') = record {
  all_permits = omega (arith, h.all_permits, ap held e);
  still_there = omega (arith, ap length e');
}
Step-IsSafe n q r h (Step.no_more _ e e') = record {
  all_permits = omega (arith, h.all_permits, ap held e);
  still_there = omega arith;
}
Step-IsSafe n q r h (Step.wait _ k e e') = record {
  all_permits = omega (arith, h.all_permits, ap held e, e');
  still_there = omega (arith, h.still_there, ap has_seen e);
}
Step-IsSafe n q r h (Step.schedule _ op ops e e') = record {
  all_permits = omega (arith, h.all_permits, ap held e, length-append q.running_ops (op ∷ []));
  still_there = omega arith;
}
Step-IsSafe n q r h (Step.finished _ before after op e) = record {
  all_permits = omega (
    arith,
    h.all_permits,
    ap length e,
    length-append before (op ∷ after),
    length-append before after,
  );
  still_there = h.still_there;
}
Step-IsSafe n q r h (Step.notify _ k e) = record {
  all_permits = omega (arith, h.all_permits, e);
  still_there = h.still_there;
}

executing-IsSafe : (ops : List Operation) (n : ℕ) → IsSafe n (executing ops n)
executing-IsSafe ops n = record { all_permits = omega arith; still_there = omega arith }

Steps-IsSafe : (n : ℕ) (q r : Queue) → IsSafe n q → Steps q r → IsSafe n r
Steps-IsSafe n q r h (Steps.here _) = h
Steps-IsSafe n q r h (Steps.then _ p _ before last) =
    Step-IsSafe n p r (Steps-IsSafe n q p h before) last

-- However the threads interleave, as long as the queue is not cancelled, no more operations run at a
-- time than the semaphore had permits, and once the executing thread has seen that there is an
-- operation, there is one for `top()` when it gets its permit.
pub Steps-bounded :
    (ops : List Operation) (n : ℕ) (q : Queue)
    → Steps (executing ops n) q
    → (length q.running_ops ≤ n) × (q.executor ≡ admitted → q.unscheduled_ops ≢ [])
Steps-bounded ops n q steps =
    let h = Steps-IsSafe n (executing ops n) q (executing-IsSafe ops n) steps in
    (
      omega (arith, h.all_permits),
      λ e e'. omega (arith, h.still_there, ap has_seen e, ap length e'),
    )
