-- ===== src/OperationQueue/Control/Pauses.antt =====
-- The key `p` on running operations.
use pwned.Base.{◌≡◌, refl, ap, ◌∙◌, arith, true, false, List, [], ◌∷◌, map, All}
use pwned.OperationQueue.Control.{
  executing, waiting, OperationState, pause_operation, poll, wake, wait_if, woken, Control, pause,
  resume, poll_all, key_p,
}

-- The operation is at work, and not paused.
pub record IsAtWork (op : OperationState) : Type 0 where
  pub working : op.phase ≡ executing
  pub free : op.is_paused ≡ false

-- An operation that waits, with its flag.
abbrev held : OperationState → OperationState
held op = record op { is_paused = true; phase = waiting }

poll_paused : (op : OperationState) → IsAtWork op → poll (pause_operation op) ≡ held op
unfolding poll pause_operation
poll_paused op v = ap (λ p. wait_if true p (record op { is_paused = true; phase = p })) v.working

wake_held : (op : OperationState) → IsAtWork op → wake (held op) ≡ op
unfolding wake
wake_held op v = ground (arith, v.working, v.free)

wake_paused : (op : OperationState) → IsAtWork op → wake (pause_operation op) ≡ pause_operation op
unfolding wake pause_operation
wake_paused op v =
    ap (λ p. woken p (record op { is_paused = true; phase = p })) v.working
    ∙ ground (arith, v.working)

-- A queue that runs, and is not cancelled.
abbrev pub running : List OperationState → List OperationState → Control
running unscheduled ops = record {
  unscheduled_ops = unscheduled;
  running_ops = ops;
  is_running = true;
  is_cancelled = false;
}

polled_between :
    (ops : List OperationState)
    → All IsAtWork ops
    → map wake (map poll (map pause_operation ops)) ≡ ops
polled_between [] h = refl
polled_between (op ∷ ops) h =
    ap (λ x. wake x ∷ map wake (map poll (map pause_operation ops))) (poll_paused op h.0)
    ∙ ap (λ x. x ∷ map wake (map poll (map pause_operation ops))) (wake_held op h.0)
    ∙ ap (λ l. op ∷ l) (polled_between ops h.1)

polled_behind :
    (ops : List OperationState)
    → All IsAtWork ops
    → map poll (map wake (map pause_operation ops)) ≡ map held ops
polled_behind [] h = refl
polled_behind (op ∷ ops) h =
    ap (λ x. poll x ∷ map poll (map wake (map pause_operation ops))) (wake_paused op h.0)
    ∙ ap (λ x. x ∷ map poll (map wake (map pause_operation ops))) (poll_paused op h.0)
    ∙ ap (λ l. held op ∷ l) (polled_behind ops h.1)

held-waiting : (ops : List OperationState) → All (λ op. op.phase ≡ waiting) (map held ops)
held-waiting [] = tt
held-waiting (op ∷ ops) = (refl, held-waiting ops)

module _ (unscheduled ops : List OperationState) (working : All IsAtWork ops) where
  -- When the operations come to their test between two strokes of `p`, all goes on as before. When
  -- they come to it only behind the second stroke, all of them wait, while the queue counts as
  -- running, so that `resume` does nothing.
  pub key_p-key_p :
      (key_p (poll_all (key_p (running unscheduled ops))) ≡ running unscheduled ops)
      × (q : Control) × (poll_all (key_p (key_p (running unscheduled ops))) ≡ q)
      × All (λ op. op.phase ≡ waiting) q.running_ops
      × (q.is_running ≡ true)
      × (resume q ≡ q)
  unfolding key_p pause resume poll_all
  key_p-key_p = (
    ap (running unscheduled) (polled_between ops working),
    running unscheduled (map held ops),
    ap (running unscheduled) (polled_behind ops working),
    held-waiting ops,
    refl,
    refl,
  )
