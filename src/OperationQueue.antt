-- ===== src/OperationQueue.antt =====
-- pwned-lib/operationqueue.hpp and semaphore.hpp: the threads that carry operations out, as steps that
-- interleave. Each step is one that the locks make atomic.
pub mod Bounds
pub mod Control
use pwned.Base.{
  ℕ, zero, suc, ◌+◌, ◌≡◌, Bool, true, false, List, [], ◌∷◌, ◌++◌, ◌==◌, ltb, if◌then◌else◌,
}

pub record Operation : Type 0 where
  pub uuid : ℕ
  pub priority : ℕ

-- `opGreaterPriority`, for `std::priority_queue`.
abbrev pub op_greater_priority : Operation → Operation → Bool
op_greater_priority lhs rhs = ltb lhs.priority rhs.priority

-- `unscheduledOps.push`: the top, of the greatest priority, stands first.
unfoldable pub push_op : Operation → List Operation → List Operation
push_op op [] = op ∷ []
push_op op (top ∷ ops) =
    let rest = push_op op ops in if op_greater_priority top op then op ∷ top ∷ ops else top ∷ rest

-- Where the executing thread stands: at the test of the loop, in `guard.wait()`, behind it, or at its end.
pub data Executor : Type 0 where
  testing : Executor
  waiting : Executor
  admitted : Executor
  ended : Executor

-- `notifying` are the threads that have called `finished`, but not yet `guard.notify()`.
pub record Queue : Type 0 where
  pub unscheduled_ops : List Operation
  pub running_ops : List Operation
  pub notifying : ℕ
  pub capacity : ℕ
  pub executor : Executor

-- The steps of a queue that is executed and not cancelled.
pub data Step : Queue → Queue → Type 0 where
  add :
      (q : Queue) (op : Operation)
      → Step q (record q { unscheduled_ops = push_op op q.unscheduled_ops })
  more :
      (q : Queue) (op : Operation) (ops : List Operation)
      → q.executor ≡ testing
      → q.unscheduled_ops ≡ op ∷ ops
      → Step q (record q { executor = waiting })
  no_more :
      (q : Queue)
      → q.executor ≡ testing
      → q.unscheduled_ops ≡ []
      → Step q (record q { executor = ended })
  wait :
      (q : Queue) (n : ℕ)
      → q.executor ≡ waiting
      → q.capacity ≡ suc n
      → Step q (record q { capacity = n; executor = admitted })
  schedule :
      (q : Queue) (op : Operation) (ops : List Operation)
      → q.executor ≡ admitted
      → q.unscheduled_ops ≡ op ∷ ops
      → Step q (record q {
        unscheduled_ops = ops;
        running_ops = q.running_ops ++ op ∷ [];
        executor = testing;
      })
  finished :
      (q : Queue) (before after : List Operation) (op : Operation)
      → q.running_ops ≡ before ++ op ∷ after
      → Step q (record q { running_ops = before ++ after; notifying = suc q.notifying })
  notify :
      (q : Queue) (n : ℕ)
      → q.notifying ≡ suc n
      → Step q (record q { notifying = n; capacity = suc q.capacity })

pub data Steps : Queue → Queue → Type 0 where
  here : (q : Queue) → Steps q q
  then : (q r s : Queue) → Steps q r → Step r s → Steps q s

-- `execute()` on a queue to which operations were added, with the capacity of the semaphore.
abbrev pub executing : List Operation → ℕ → Queue
executing ops capacity = record {
  unscheduled_ops = ops;
  running_ops = [];
  notifying = 0;
  capacity = capacity;
  executor = testing;
}
