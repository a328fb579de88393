-- ===== src/Tests/Queues.antt =====
-- A run of the queue of operations of operationqueue.hpp.
use pwned.Base.{◌≤◌, ◌≡◌, ◌≢◌, refl, [], ◌∷◌, length}
use pwned.OperationQueue.{Operation, Queue, Step, Steps, executing, testing, waiting, admitted}
use pwned.OperationQueue.Bounds.{Steps-bounded}

abbrev small : Operation
small = record { uuid = 1; priority = 3 }

abbrev large : Operation
large = record { uuid = 2; priority = 8 }

abbrev start : Queue
start = executing (large ∷ small ∷ []) 1

abbrev seen : Queue
seen = record start { executor = waiting }

abbrev let_in : Queue
let_in = record seen { capacity = 0; executor = admitted }

abbrev running : Queue
running = record let_in {
  unscheduled_ops = small ∷ [];
  running_ops = large ∷ [];
  executor = testing;
}

run : Steps start running
run =
    Steps.then start let_in running
      (Steps.then start seen let_in
        (Steps.then start start seen (Steps.here start)
          (Step.more start large (small ∷ []) refl refl))
        (Step.wait seen 0 refl refl))
      (Step.schedule let_in large (small ∷ []) refl refl)

Steps-bounded_example :
    (length running.running_ops ≤ 1) × (running.executor ≡ admitted → running.unscheduled_ops ≢ [])
Steps-bounded_example = Steps-bounded (large ∷ small ∷ []) 1 running run
