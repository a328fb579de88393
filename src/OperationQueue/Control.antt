-- ===== src/OperationQueue/Control.antt =====
-- pwned-lib/operation.cpp, and pause and resume of operationqueue.hpp.
pub mod Pauses
use pwned.Base.{Bool, true, false, not, List, [], ◌∷◌, ◌++◌, map, Option, none, some, if◌then◌else◌}

-- Where the thread of an operation stands: in front of `start()`, in `execute()`, in `wait()`, or behind
-- the notification that it is finished.
pub data Phase : Type 0 where
  unstarted : Phase
  executing : Phase
  waiting : Phase
  notified : Phase

pub record OperationState : Type 0 where
  pub is_running : Bool
  pub is_finished : Bool
  pub is_cancelled : Bool
  pub is_paused : Bool
  pub phase : Phase

-- `Operation()`
abbrev pub new_operation : OperationState
new_operation = record {
  is_running = false;
  is_finished = false;
  is_cancelled = false;
  is_paused = false;
  phase = unstarted;
}

-- `start()` up to `execute()`, and what follows it. A cancelled operation ends without a notification.
unfoldable pub start : OperationState → OperationState
start op =
    if op.is_cancelled
    then op
    else record op { is_running = true; is_paused = false; phase = executing }

unfoldable pub finish : OperationState → OperationState
finish op = record op { is_running = false; is_finished = true; phase = notified }

-- `pause()` of an operation.
unfoldable pub pause_operation : OperationState → OperationState
pause_operation op = record op { is_paused = true }

wait_if : Bool → Phase → OperationState → OperationState
wait_if true executing op = record op { phase = waiting }
wait_if _ _ op = op

-- An operation at work comes to its test `if (isPaused)`, and calls `wait()`.
unfoldable pub poll : OperationState → OperationState
unfolding wait_if
poll op = wait_if op.is_paused op.phase op

woken : Phase → OperationState → OperationState
woken waiting op = record op { is_paused = false; phase = executing }
woken _ op = op

-- An operation that waits goes on, and resets its flag.
unfoldable pub wake : OperationState → OperationState
unfolding woken
wake op = woken op.phase op

pub record Control : Type 0 where
  pub unscheduled_ops : List OperationState
  pub running_ops : List OperationState
  pub is_running : Bool
  pub is_cancelled : Bool

-- `pause()`
unfoldable pub pause : Control → Control
pause q =
    if q.is_cancelled
    then q
    else if q.is_running
    then record q { running_ops = map pause_operation q.running_ops; is_running = false }
    else q

-- `resume()`
unfoldable pub resume : Control → Control
resume q =
    if q.is_cancelled
    then q
    else if q.is_running
    then q
    else record q { running_ops = map wake q.running_ops; is_running = true }

-- Every operation at work comes to its test.
unfoldable pub poll_all : Control → Control
poll_all q = record q { running_ops = map poll q.running_ops }

-- The key `p` of the merger's command line.
unfoldable pub key_p : Control → Control
key_p q = if q.is_running then pause q else resume q
