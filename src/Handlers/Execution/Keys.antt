-- ===== src/Handlers/Execution/Keys.antt =====
-- internal/api/handler/execution.go: what `Start` makes of an idempotency key, and of a request without one.
use flow_ctl.Prelude.{
  ◌≡◌, has_value, refl, sym, ap, subst, ℕ, String, Bool, true, false, Option, none, some, List, [],
  ◌∷◌, ◌==◌, ◌&&◌, ◌||◌, eqb, eq_refl, Bool-cases, Option-cases, inl, inr, arith, if◌then◌else◌,
}
use flow_ctl.Store.{ExecutionRow, Executions, row_then, collides, same_key, insert_row}
use flow_ctl.Store.Rows.{After, After-row_then}
use flow_ctl.Scheduler.{WorkflowRow}
use flow_ctl.Handlers.Execution.Writes.{Writes, Writes-KeepsKeys}
use flow_ctl.Handlers.Execution.{
  Response, failure, existing, created, Faults, StartRequest, find_key, published,
  existing_execution, create, start_new, start,
}

-- The first row with the key is the one inserted.
Finds : (key : String) (s : ExecutionRow) → Executions → Type 0
Finds key s after = find_key key s.tenant_id after ≡ some s.id

-- Rows that do not collide differ in the tenant or in the key.
collides-key :
    (key : String) (r s : ExecutionRow)
    → s.idempotency_key ≡ some key
    → collides r s ≡ false
    → same_key r.idempotency_key (some key) && eqb r.tenant_id s.tenant_id ≡ false
collides-key key r s k e =
    subst (λ o. same_key r.idempotency_key o && eqb r.tenant_id s.tenant_id ≡ false) k
      (apart (eqb r.id s.id) (eqb r.tenant_id s.tenant_id)
        (same_key r.idempotency_key s.idempotency_key) e)
  where
    apart : (a b c : Bool) → a || b && c ≡ false → c && b ≡ false
    apart a b c h = ground arith

eqb_refl : (n : ℕ) → eqb n n ≡ true
eqb_refl n = ground arith

insert_row-Finds :
    (key : String) (s : ExecutionRow) (rows : Executions)
    → s.idempotency_key ≡ some key
    → After (Finds key s) (insert_row s rows)
unfolding insert_row find_key Finds
insert_row-Finds key s [] k = rw (k, eq_refl key, eqb_refl s.tenant_id) refl
insert_row-Finds key s (r ∷ rows) k = elim (Bool-cases (collides r s)) [
  | inl e ↦ rw e tt
  | inr e ↦ rw e (
      After-row_then (Finds key s) _ r (insert_row s rows)
        (λ after h. rw (collides-key key r s k e) h) (insert_row-Finds key s rows k))
]

-- A key that the tenant has used cannot be inserted again.
insert_row-none :
    (key : String) (s : ExecutionRow) (id : ℕ) (rows : Executions)
    → s.idempotency_key ≡ some key
    → find_key key s.tenant_id rows ≡ some id
    → insert_row s rows ≡ none
unfolding insert_row find_key
insert_row-none key s id [] k h = cc
insert_row-none key s id (r ∷ rows) k h = elim (Bool-cases (collides r s)) [
  | inl e ↦ rw e refl
  | inr e ↦
      rw e (ap (row_then r) (insert_row-none key s id rows k (later (collides-key key r s k e) h)))
]
  where
    later :
        {b : Bool} {o : Option ℕ} → b ≡ false → (if b then some r.id else o) ≡ some id → o ≡ some id
    later {b = false} f g = g
    later {b = true} f g = cc

-- A created execution is the one that its key finds.
CreatedFinds : (key : String) (tenant : ℕ) → Response × Executions → Type 0
CreatedFinds key tenant (created id, after) = find_key key tenant after ≡ some id
CreatedFinds key tenant _ = Unit

create-CreatedFinds :
    (inserts : Bool) (message : String) (key : String) (r : ExecutionRow) (rows : Executions)
    → r.idempotency_key ≡ some key
    → CreatedFinds key r.tenant_id (create inserts message r rows)
unfolding create CreatedFinds Finds
create-CreatedFinds false message key r rows k = tt
create-CreatedFinds true message key r rows k = elim (Option-cases (insert_row r rows)) [
  | inl e ↦ rw e tt
  | inr (after, e) ↦ rw e (subst (After (Finds key r)) e (insert_row-Finds key r rows k))
]

start_new-CreatedFinds :
    (faults : Faults) (workflows : List WorkflowRow) (tenant user id now workflow : ℕ)
    (req : StartRequest) (rows : Executions)
    → CreatedFinds req.idempotency_key tenant
        (start_new faults workflows tenant user id now workflow req rows)
unfolding start_new CreatedFinds
start_new-CreatedFinds faults workflows tenant user id now workflow req rows =
    elim (Option-cases (published faults.version workflow tenant workflows)) [
      | inl g ↦ rw (g, start_new) tt
      | inr (version, g) ↦
          rw (g, start_new)
            (create-CreatedFinds faults.insert "failed to create execution" req.idempotency_key _
              rows refl)
    ]

start-CreatedFinds :
    (faults : Faults) (workflows : List WorkflowRow) (tenant user id now : ℕ) (req : StartRequest)
    (rows : Executions)
    → CreatedFinds req.idempotency_key tenant
        (start faults workflows tenant user id now (some req) rows)
unfolding start start_new CreatedFinds
start-CreatedFinds faults workflows tenant user id now req rows = elim (Option-cases req.workflow) [
  | inl e ↦ rw e tt
  | inr (workflow, e) ↦
      elim (Option-cases (existing_execution faults.lookup req.idempotency_key tenant rows)) [
        | inr (old, f) ↦ rw (e, f) tt
        | inl f ↦
            rw (e, f) (start_new-CreatedFinds faults workflows tenant user id now workflow req rows)
      ]
]

-- After a request with an idempotency key created an execution, a request of the tenant with the same
-- key, for any workflow, creates nothing and is answered with that execution, if the look-up of
-- the key succeeds.
pub start_again :
    (faults again : Faults) (workflows workflows' : List WorkflowRow)
    (tenant user user' id id' new now now' workflow : ℕ) (req req' : StartRequest)
    (rows rows' : Executions)
    → start faults workflows tenant user new now (some req) rows ≡ (created id, rows')
    → (req.idempotency_key == "") ≡ false
    → req'.idempotency_key ≡ req.idempotency_key
    → req'.workflow ≡ some workflow
    → again.lookup ≡ true
    → start again workflows' tenant user' id' now' (some req') rows' ≡ (existing id, rows')
unfolding start existing_execution CreatedFinds
start_again faults again workflows workflows' tenant user user' id id' new now now' workflow req
      req' rows rows' e k same w l =
    let found : find_key req.idempotency_key tenant rows' ≡ some id =
      subst (CreatedFinds req.idempotency_key tenant) e
        (start-CreatedFinds faults workflows tenant user new now req rows) in
    rw (w, l, same, k, found) refl

abbrev pub IsFailure : Response → Type 0
IsFailure (failure code message) = Unit
IsFailure _ = ⊥

Refused : Executions → Response × Executions → Type 0
Refused rows r = IsFailure r.0 × (r.1 ≡ rows)

create-Refused :
    (inserts : Bool) (message key : String) (id : ℕ) (r : ExecutionRow) (rows : Executions)
    → r.idempotency_key ≡ some key
    → find_key key r.tenant_id rows ≡ some id
    → Refused rows (create inserts message r rows)
unfolding create Refused
create-Refused false message key id r rows k h = (tt, refl)
create-Refused true message key id r rows k h = rw (insert_row-none key r id rows k h) (tt, refl)

start_new-Refused :
    (faults : Faults) (workflows : List WorkflowRow) (tenant user new now workflow id : ℕ)
    (req : StartRequest) (rows : Executions)
    → find_key req.idempotency_key tenant rows ≡ some id
    → Refused rows (start_new faults workflows tenant user new now workflow req rows)
unfolding start_new Refused
start_new-Refused faults workflows tenant user new now workflow id req rows h =
    elim (Option-cases (published faults.version workflow tenant workflows)) [
      | inl g ↦ rw (g, start_new) (tt, refl)
      | inr (version, g) ↦
          rw (g, start_new)
            (create-Refused faults.insert "failed to create execution" req.idempotency_key id _ rows
              refl h)
    ]

start-Refused :
    (faults : Faults) (workflows : List WorkflowRow) (tenant user new now id : ℕ)
    (req : StartRequest) (rows : Executions)
    → req.idempotency_key ≡ ""
    → find_key "" tenant rows ≡ some id
    → Refused rows (start faults workflows tenant user new now (some req) rows)
unfolding start existing_execution Refused
start-Refused faults workflows tenant user new now id req rows k h =
    elim (Option-cases req.workflow) [
      | inl w ↦ rw (w, start) (tt, refl)
      | inr (workflow, w) ↦
          rw (w, start, k)
            (start_new-Refused faults workflows tenant user new now workflow id req rows
              (subst (λ x. find_key x tenant rows ≡ some id) (sym k) h))
    ]

-- After a request without an idempotency key created an execution, and then any requests to start, cancel
-- and retry executions of any tenant, any operations of the schedulers and any status changes, every
-- further request of the tenant without a key fails and creates nothing.
pub start_without_key :
    (faults again : Faults) (workflows workflows' : List WorkflowRow)
    (tenant user user' id id' new now now' : ℕ) (req req' : StartRequest)
    (rows created_rows later_rows : Executions)
    → start faults workflows tenant user new now (some req) rows ≡ (created id, created_rows)
    → req.idempotency_key ≡ ""
    → Writes created_rows later_rows
    → req'.idempotency_key ≡ ""
    → IsFailure (start again workflows' tenant user' id' now' (some req') later_rows).0
      × ((start again workflows' tenant user' id' now' (some req') later_rows).1 ≡ later_rows)
unfolding CreatedFinds Refused
start_without_key faults again workflows workflows' tenant user user' id id' new now now' req req'
      rows created_rows later_rows e k ws k' =
    elim (Option-cases (find_key "" tenant later_rows)) [
      | inl none_left ↦ absurd (
          used (find_key "" tenant later_rows) none_left
            (Writes-KeepsKeys ws "" tenant (rw found refl)))
      | inr (old, h) ↦ start-Refused again workflows' tenant user' id' now' old req' later_rows k' h
    ]
  where
    found : find_key "" tenant created_rows ≡ some id
    found =
        subst (λ x. find_key x tenant created_rows ≡ some id) k
          (subst (CreatedFinds req.idempotency_key tenant) e
            (start-CreatedFinds faults workflows tenant user new now req rows))

    used : (o : Option ℕ) → o ≡ none → has_value o ≡ true → ⊥
    used none e h = cc
    used (some x) e h = cc
