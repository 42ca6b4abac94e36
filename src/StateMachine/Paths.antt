-- ===== src/StateMachine/Paths.antt =====
-- What the transition tables of internal/engine/statemachine.go allow, over runs of requests.
use mathlib.Core.List.{Memᴰ}
use flow_ctl.Prelude.{
  ◌≡◌, refl, sym, subst, ◌⊎◌, inl, inr, Bool, true, false, none, List, [], ◌∷◌, arith, has_value,
  not, ◌≢◌,
}
use flow_ctl.Model.Execution.{ExecutionStatus, Execution}
use flow_ctl.StateMachine.{validate_execution_transition, transition_to, is_terminal}

-- The diagram: which status may follow which.
abbrev follows : ExecutionStatus → ExecutionStatus → Bool
follows ExecutionStatus.pending ExecutionStatus.queued = true
follows ExecutionStatus.pending ExecutionStatus.cancelled = true
follows ExecutionStatus.queued ExecutionStatus.running = true
follows ExecutionStatus.queued ExecutionStatus.cancelled = true
follows ExecutionStatus.running ExecutionStatus.succeeded = true
follows ExecutionStatus.running ExecutionStatus.failed = true
follows ExecutionStatus.running ExecutionStatus.waiting_approval = true
follows ExecutionStatus.running ExecutionStatus.cancelled = true
follows ExecutionStatus.running ExecutionStatus.paused = true
follows ExecutionStatus.waiting_approval ExecutionStatus.running = true
follows ExecutionStatus.waiting_approval ExecutionStatus.cancelled = true
follows ExecutionStatus.paused ExecutionStatus.running = true
follows ExecutionStatus.paused ExecutionStatus.cancelled = true
follows ExecutionStatus.failed ExecutionStatus.retrying = true
follows ExecutionStatus.retrying ExecutionStatus.running = true
follows ExecutionStatus.retrying ExecutionStatus.failed = true
follows _ _ = false

pub validate-follows :
    (a b : ExecutionStatus) → has_value (validate_execution_transition a b) ≡ not (follows a b)
unfolding validate_execution_transition
validate-follows ExecutionStatus.pending ExecutionStatus.pending = refl
validate-follows ExecutionStatus.queued ExecutionStatus.pending = refl
validate-follows ExecutionStatus.running ExecutionStatus.pending = refl
validate-follows ExecutionStatus.waiting_approval ExecutionStatus.pending = refl
validate-follows ExecutionStatus.paused ExecutionStatus.pending = refl
validate-follows ExecutionStatus.succeeded ExecutionStatus.pending = refl
validate-follows ExecutionStatus.failed ExecutionStatus.pending = refl
validate-follows ExecutionStatus.cancelled ExecutionStatus.pending = refl
validate-follows ExecutionStatus.retrying ExecutionStatus.pending = refl
validate-follows _ _ = refl

-- No request gets through from `a`.
abbrev is_settled : ExecutionStatus → Bool
is_settled ExecutionStatus.succeeded = true
is_settled ExecutionStatus.cancelled = true
is_settled _ = false

-- Requests made one after another; a refused one leaves the execution as it is.
unfoldable pub requests : Execution → List ExecutionStatus → Execution
requests exec [] = exec
requests exec (to ∷ tos) = requests (transition_to exec to).0 tos

pub transition_to_cases :
    (exec : Execution) (to : ExecutionStatus)
    → (follows exec.status to ≡ true) × ((transition_to exec to).0 ≡ record exec { status = to })
      ⊎ (follows exec.status to ≡ false) × ((transition_to exec to).0 ≡ exec)
unfolding transition_to
transition_to_cases exec to = ground (arith, validate-follows exec.status to)

-- A succeeded or cancelled execution stays as it is, whatever transitions are asked for.
pub requests_settled :
    (exec : Execution) (tos : List ExecutionStatus)
    → (exec.status ≡ ExecutionStatus.succeeded) ⊎ (exec.status ≡ ExecutionStatus.cancelled)
    → requests exec tos ≡ exec
unfolding requests
requests_settled exec [] h = refl
requests_settled exec (to ∷ tos) h = elim (transition_to_cases exec to) [
  | inl e ↦ ground arith
  | inr e ↦ rw e.1 (requests_settled exec tos h)
]

before_running : ExecutionStatus → Bool
before_running ExecutionStatus.pending = true
before_running ExecutionStatus.queued = true
before_running ExecutionStatus.cancelled = true
before_running _ = false

before_running_step :
    (a b : ExecutionStatus)
    → before_running a ≡ true
    → follows a b ≡ true
    → (b ≡ ExecutionStatus.running) ⊎ (before_running b ≡ true)
unfolding before_running
before_running_step a b h k = ground arith

leaves_start :
    (exec : Execution) (tos : List ExecutionStatus)
    → before_running exec.status ≡ true
    → before_running (requests exec tos).status ≡ false
    → Memᴰ ExecutionStatus.running tos
unfolding requests
leaves_start exec [] h k = cc
leaves_start exec (to ∷ tos) h k = elim (transition_to_cases exec to) [
  | inr e ↦
      Memᴰ.tail (
        leaves_start exec tos h (subst (λ x. before_running (requests x tos).status ≡ false) e.1 k))
  | inl e ↦ elim (before_running_step exec.status to h e.0) [
    | inl r ↦ Memᴰ.head (sym r)
    | inr r ↦ Memᴰ.tail (
        leaves_start (record exec { status = to }) tos r
          (subst (λ x. before_running (requests x tos).status ≡ false) e.1 k))
  ]
]

-- A new execution that was brought to `succeeded`, `failed`, `paused`, `retrying` or
-- `waiting_approval` by any requests was asked to run on the way.
pub outcome_needs_running :
    (exec : Execution) (tos : List ExecutionStatus)
    → exec.status ≡ ExecutionStatus.pending
    → (requests exec tos).status ≢ ExecutionStatus.pending
    → (requests exec tos).status ≢ ExecutionStatus.queued
    → (requests exec tos).status ≢ ExecutionStatus.cancelled
    → Memᴰ ExecutionStatus.running tos
unfolding before_running
outcome_needs_running exec tos h a b c = leaves_start exec tos (ground arith) (ground arith)

way_to_success : ExecutionStatus → List ExecutionStatus
way_to_success ExecutionStatus.pending =
    ExecutionStatus.queued ∷ ExecutionStatus.running ∷ ExecutionStatus.succeeded ∷ []
way_to_success ExecutionStatus.failed =
    ExecutionStatus.retrying ∷ ExecutionStatus.running ∷ ExecutionStatus.succeeded ∷ []
way_to_success ExecutionStatus.running = ExecutionStatus.succeeded ∷ []
way_to_success ExecutionStatus.succeeded = []
way_to_success _ = ExecutionStatus.running ∷ ExecutionStatus.succeeded ∷ []

requests-way :
    (exec : Execution) (s : ExecutionStatus)
    → s ≢ ExecutionStatus.cancelled
    → (requests (record exec { status = s }) (way_to_success s)).status ≡ ExecutionStatus.succeeded
unfolding requests way_to_success transition_to validate_execution_transition
requests-way exec ExecutionStatus.pending h = refl
requests-way exec ExecutionStatus.cancelled h = absurd (h refl)
requests-way exec _ h = refl

-- From every status but `cancelled` some requests lead to `succeeded`: no status is a dead end.
pub can_still_succeed :
    (exec : Execution)
    → exec.status ≢ ExecutionStatus.cancelled
    → (tos : List ExecutionStatus) × ((requests exec tos).status ≡ ExecutionStatus.succeeded)
can_still_succeed exec h = (way_to_success exec.status, requests-way exec exec.status h)

-- The only move out of a status that `is_terminal` reports as terminal is the retry of a failure.
pub is_terminal-leaves :
    (a b : ExecutionStatus)
    → is_terminal a ≡ true
    → validate_execution_transition a b ≡ none
    → (a ≡ ExecutionStatus.failed) × (b ≡ ExecutionStatus.retrying)
unfolding is_terminal
is_terminal-leaves a b h k = ground (arith, validate-follows a b)
