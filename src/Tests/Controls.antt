-- ===== src/Tests/Controls.antt =====
-- pause and resume of an operation queue at concrete inputs.
use pwned.Base.{◌≡◌, refl, true, [], ◌∷◌, All}
use pwned.OperationQueue.Control.{
  executing, waiting, OperationState, new_operation, Control, resume, poll_all, key_p,
}
use pwned.OperationQueue.Control.Pauses.{IsAtWork, running, key_p-key_p}

abbrev at_work : OperationState
at_work = record new_operation { is_running = true; phase = executing }

at_work-IsAtWork : IsAtWork at_work
at_work-IsAtWork = record { working = refl; free = refl }

key_p-key_p_example :
    (key_p (poll_all (key_p (running [] (at_work ∷ [])))) ≡ running [] (at_work ∷ []))
    × (q : Control) × (poll_all (key_p (key_p (running [] (at_work ∷ [])))) ≡ q)
    × All (λ op. op.phase ≡ waiting) q.running_ops
    × (q.is_running ≡ true)
    × (resume q ≡ q)
key_p-key_p_example = key_p-key_p [] (at_work ∷ []) (at_work-IsAtWork, tt)
