-- ===== src/Scheduler/Claims.antt =====
-- internal/engine/scheduler.go: who owns an execution, before and after a node tries to acquire it.
use flow_ctl.Prelude.{
  ◌≡◌, ◌≢◌, refl, sym, ap, ◌∙◌, subst, ℕ, Bool, true, false, Option, none, some, List, [], ◌∷◌, All,
  eqb, arith, Bool-cases, inl, inr, ◌||◌, not, has_value,
}
use flow_ctl.Store.{ExecutionRow, Executions, row_of, update_row, insert_row}
use flow_ctl.Store.Rows.{
  After, IsChanged, KeepsOthers, KeepsRows, update_row-IsChanged, update_row-KeepsOthers,
  insert_row-KeepsRows,
}
use flow_ctl.Scheduler.{
  is_node, may_claim, claim, acquired, with_run, try_acquire_execution, handle_new_execution,
  acquire_all, poll_for_work, waiting_executions,
}

-- The node that the row of an execution names.
abbrev pub node_of : Option ExecutionRow → Option ℕ
node_of none = none
node_of (some r) = r.scheduler_node

abbrev pub owner : (id : ℕ) → Executions → Option ℕ
owner id rows = node_of (row_of id rows)

-- An execution that has an owner keeps it.
abbrev pub KeepsOwners : (rows after : Executions) → Type 0
KeepsOwners rows after = (j n : ℕ) → owner j rows ≡ some n → owner j after ≡ some n

abbrev pub OwnedBy : (node : ℕ) → Executions → ℕ → Type 0
OwnedBy node rows id = owner id rows ≡ some node

-- What is acquired is owned by the node, and nothing else loses its owner.
abbrev pub Acquires : (node : ℕ) → Executions → List ℕ × Executions → Type 0
Acquires node rows (ids, after) = All (OwnedBy node after) ids × KeepsOwners rows after

eqb-eq : (m n : ℕ) → eqb m n ≡ true → m ≡ n
eqb-eq m n h = ground (arith, h)

eqb-ne : (m n : ℕ) → eqb m n ≡ false → m ≢ n
eqb-ne m n h = ground (arith, h)

may_claim-owner :
    (node n : ℕ) (o : Option ℕ) → not (has_value o) || is_node node o ≡ true → o ≡ some n → node ≡ n
may_claim-owner node n none h e = cc
may_claim-owner node n (some m) h e = sym (eqb-eq m node h) ∙ some-inj e
  where
    some-inj : {a b : ℕ} → some a ≡ some b → a ≡ b
    some-inj p = cc

claim-Acquires :
    (node now id : ℕ) (rows after : Executions)
    → IsChanged id (may_claim node) (claim node now) rows after
    → KeepsOthers id (may_claim node) (claim node now) rows after
    → Acquires node rows (id ∷ [], after)
claim-Acquires node now id rows after (r, at, passed, changed) others =
    ((ap node_of changed, tt), keeps)
  where
    keeps : KeepsOwners rows after
    keeps j n h = elim (Bool-cases (eqb j id)) [
      | inl e ↦
          (let same = eqb-eq j id e in
            let was : r.scheduler_node ≡ some n =
              sym (ap node_of at) ∙ (subst (λ i. owner i rows ≡ some n) same h) in
            subst (λ i. owner i after ≡ some n) (sym same)
              (ap node_of changed ∙ ap some (may_claim-owner node n r.scheduler_node passed was)))
      | inr e ↦ ap node_of (others j (eqb-ne j id e)) ∙ h
    ]

nothing-Acquires : (node : ℕ) (rows : Executions) → Acquires node rows ([], rows)
nothing-Acquires node rows = (tt, λ j n h. h)

pub try_acquire_execution-Acquires :
    (lock : Option Bool) (writes : Bool) (node now id : ℕ) (rows : Executions)
    → Acquires node rows (acquired id (try_acquire_execution lock writes node now id rows))
unfolding try_acquire_execution
try_acquire_execution-Acquires none writes node now id rows = nothing-Acquires node rows
try_acquire_execution-Acquires (some false) writes node now id rows = nothing-Acquires node rows
try_acquire_execution-Acquires (some true) false node now id rows = nothing-Acquires node rows
try_acquire_execution-Acquires (some true) true node now id rows =
    on (update_row id (may_claim node) (claim node now) rows)
      (update_row-IsChanged id (may_claim node) (claim node now) rows (λ r. refl))
      (update_row-KeepsOthers id (may_claim node) (claim node now) rows (λ r. refl))
  where
    on :
        (o : Option Executions)
        → After (IsChanged id (may_claim node) (claim node now) rows) o
        → After (KeepsOthers id (may_claim node) (claim node now) rows) o
        → Acquires node rows
            (acquired id (elim o [ none ↦ (some false, rows) | some rows' ↦ (some true, rows') ]))
    on none h k = nothing-Acquires node rows
    on (some after) h k = claim-Acquires node now id rows after h k

pub handle_new_execution-Acquires :
    (lock : Option Bool) (writes : Bool) (node now : ℕ) (payload : Option ℕ) (rows : Executions)
    → Acquires node rows (handle_new_execution lock writes node now payload rows)
unfolding handle_new_execution
handle_new_execution-Acquires lock writes node now none rows = nothing-Acquires node rows
handle_new_execution-Acquires lock writes node now (some id) rows =
    try_acquire_execution-Acquires lock writes node now id rows

-- One candidate, then the others.
then-Acquires :
    (node id : ℕ) (rows : Executions) (tried : Option Bool × Executions)
    (later : List ℕ × Executions)
    → Acquires node rows (acquired id tried)
    → Acquires node tried.1 later
    → Acquires node rows (with_run id tried.0 later)
then-Acquires node id rows (some true, after) (ids, last) h k =
    ((k.1 id node h.0.0, k.0), λ j n e. k.1 j n (h.1 j n e))
then-Acquires node id rows (some false, after) (ids, last) h k = (k.0, λ j n e. k.1 j n (h.1 j n e))
then-Acquires node id rows (none, after) (ids, last) h k = (k.0, λ j n e. k.1 j n (h.1 j n e))

acquire_all-Acquires :
    (lock : ℕ → Option Bool) (writes : ℕ → Bool) (node now : ℕ) (candidates rows : Executions)
    → Acquires node rows (acquire_all lock writes node now candidates rows)
unfolding acquire_all
acquire_all-Acquires lock writes node now [] rows = nothing-Acquires node rows
acquire_all-Acquires lock writes node now (c ∷ candidates) rows =
    let tried = try_acquire_execution (lock c.id) (writes c.id) node now c.id rows in
    then-Acquires node c.id rows tried (acquire_all lock writes node now candidates tried.1)
      (try_acquire_execution-Acquires (lock c.id) (writes c.id) node now c.id rows)
      (acquire_all-Acquires lock writes node now candidates tried.1)

pub poll_for_work-Acquires :
    (lock : ℕ → Option Bool) (writes : ℕ → Bool) (node now : ℕ) (rows : Executions)
    → Acquires node rows (poll_for_work lock writes node now rows)
unfolding poll_for_work
poll_for_work-Acquires lock writes node now rows =
    acquire_all-Acquires lock writes node now (waiting_executions rows) rows

-- A change that leaves the node as it is.
pub update_row-KeepsOwners :
    (id : ℕ) (p : ExecutionRow → Bool) (f : ExecutionRow → ExecutionRow) (rows after : Executions)
    → ((r : ExecutionRow) → (f r).id ≡ r.id)
    → ((r : ExecutionRow) → (f r).scheduler_node ≡ r.scheduler_node)
    → update_row id p f rows ≡ some after
    → KeepsOwners rows after
update_row-KeepsOwners id p f rows after k same e j n h =
    on (subst (After (IsChanged id p f rows)) e (update_row-IsChanged id p f rows k))
      (subst (After (KeepsOthers id p f rows)) e (update_row-KeepsOthers id p f rows k))
  where
    on : IsChanged id p f rows after → KeepsOthers id p f rows after → owner j after ≡ some n
    on (r, at, passed, changed) others = elim (Bool-cases (eqb j id)) [
      | inl q ↦
          (let eq = eqb-eq j id q in
            subst (λ i. owner i after ≡ some n) (sym eq)
              (ap node_of changed
                ∙ same r
                ∙ sym (ap node_of at)
                ∙ subst (λ i. owner i rows ≡ some n) eq h))
      | inr q ↦ ap node_of (others j (eqb-ne j id q)) ∙ h
    ]

pub insert_row-KeepsOwners :
    (s : ExecutionRow) (rows after : Executions)
    → insert_row s rows ≡ some after
    → KeepsOwners rows after
insert_row-KeepsOwners s rows after e j n h = on (row_of j rows) refl h
  where
    keeps : KeepsRows rows after
    keeps = subst (After (KeepsRows rows)) e (insert_row-KeepsRows s rows)

    on : (o : Option ExecutionRow) → row_of j rows ≡ o → node_of o ≡ some n → owner j after ≡ some n
    on none q g = cc
    on (some r) q g = ap node_of (keeps j r q) ∙ g
