-- ===== src/Gate/Transitions.antt =====
-- Which transitions are allowed, and which gates they need.
use api_score.Base.{suc, ◌<◌, ◌≤◌, ◌≡◌, ◌≢◌, ◌↔◌, ◌⊎◌, true, [], arith}
use api_score.Domain.{ExecutionMode, disabled, mode_index, gates_required_to_enter}
use api_score.Gate.{transition_shape, required_gates}

-- A transition is allowed exactly when it is one step up, one step down, or a return to DISABLED
-- from another mode.
transition_shape_iff :
    (from to : ExecutionMode)
    → ((transition_shape from to).allowed ≡ true) ↔ (
        (mode_index to ≡ suc (mode_index from))
        ⊎ ((mode_index from ≡ suc (mode_index to)) ⊎ ((to ≡ disabled) × (from ≢ disabled))))
unfolding transition_shape
transition_shape_iff from to = (λ h. ground arith, λ h. ground arith)

-- Going up needs every gate of the mode that is entered; no other transition needs a gate.
pub required_gates_lem :
    (from to : ExecutionMode)
    → ((mode_index from < mode_index to) → required_gates from to ≡ gates_required_to_enter to)
      × ((mode_index to ≤ mode_index from) → required_gates from to ≡ [])
unfolding required_gates
required_gates_lem from to = (λ h. ground arith, λ h. ground arith)
