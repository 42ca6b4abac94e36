-- ===== src/Dag/Unknown.antt =====
-- The error path of `BuildDAG` in internal/engine/dag.go.
use flow_ctl.Prelude.{
  ◌≡◌, refl, subst, ◌⊎◌, inl, inr, ◌<◌, String, false, List, [], ◌∷◌, ◌++◌, has, count, arith,
  eq_refl, count-append, Bool-cases, Result, ok, err, ◌>>=◌,
}
use flow_ctl.Model.Workflow.{StepDef, ApprovalDef, WorkflowDefinition}
use flow_ctl.Dag.Graph.{
  Dag, DagError, unknown_node, link_deps, link_steps, link_approvals, bare_dag, build_dag,
}
use flow_ctl.Dag.Build.{link}
use flow_ctl.Dag.Edges.{
  adds, link_deps-nodes, link_steps-nodes, step_deps, approval_deps, declared_deps,
}

-- The error `e` names a dependency of `owner` among `deps owner` that is no node of `d`.
pub record Blames (d : Dag) (deps : String → List String) (e : DagError) : Type 0 where
  pub owner : String
  pub dep : String
  pub names : e ≡ unknown_node owner dep
  pub declared : 0 < count dep (deps owner)
  pub absent : has dep d.nodes ≡ false

link_deps_error :
    (id : String) (deps : List String) (d : Dag) (e : DagError)
    → link_deps id deps d ≡ err e
    → Blames d (adds id deps) e
unfolding link_deps
link_deps_error id [] d e h = absurd (ground arith)
link_deps_error id (dep ∷ deps) d e h = elim (Bool-cases (has dep d.nodes)) [
  | inr no_node ↦ record {
    owner = id;
    dep = dep;
    names = ground (arith, no_node);
    declared = ground (arith, eq_refl id, eq_refl dep);
    absent = no_node;
  }
  | inl node ↦
      let b = link_deps_error id deps (link id dep d) e (ground (arith, node)) in
      record {
        owner = b.owner;
        dep = b.dep;
        names = b.names;
        declared = ground (arith, b.declared);
        absent = b.absent;
      }
]

Blames-left :
    (d : Dag) (f g : String → List String) (e : DagError)
    → Blames d f e
    → Blames d (λ j. f j ++ g j) e
Blames-left d f g e b = record {
  owner = b.owner;
  dep = b.dep;
  names = b.names;
  declared = omega (arith, b.declared, count-append b.dep (f b.owner) (g b.owner));
  absent = b.absent;
}

-- The later declarations see the same nodes.
Blames-right :
    (d d' : Dag) (f g : String → List String) (e : DagError)
    → d'.nodes ≡ d.nodes
    → Blames d' g e
    → Blames d (λ j. f j ++ g j) e
Blames-right d d' f g e same b = record {
  owner = b.owner;
  dep = b.dep;
  names = b.names;
  declared = omega (arith, b.declared, count-append b.dep (f b.owner) (g b.owner));
  absent = subst (λ n. has b.dep n ≡ false) same b.absent;
}

-- An error of a chain is that of its first part, or that of the second.
>>=-eq-err :
    (m : Result DagError Dag) (f : Dag → Result DagError Dag) (e : DagError)
    → (m >>= f) ≡ err e
    → (m ≡ err e) ⊎ ((d : Dag) × (m ≡ ok d) × (f d ≡ err e))
>>=-eq-err (ok d) f e h = inr (d, refl, h)
>>=-eq-err (err e') f e h = inl h

link_steps_error :
    (ss : List StepDef) (d : Dag) (e : DagError)
    → link_steps ss d ≡ err e
    → Blames d (step_deps ss) e
unfolding link_steps
link_steps_error [] d e h = absurd (ground arith)
link_steps_error (s ∷ ss) d e h =
    elim (>>=-eq-err (link_deps s.id s.depends_on d) (link_steps ss) e h) [
      | inl first ↦
          Blames-left d (adds s.id s.depends_on) (step_deps ss) e
            (link_deps_error s.id s.depends_on d e first)
      | inr (d', first, later) ↦
          Blames-right d d' (adds s.id s.depends_on) (step_deps ss) e
            (link_deps-nodes s.id s.depends_on d d' first) (link_steps_error ss d' e later)
    ]

link_approvals_error :
    (rest : List ApprovalDef) (d : Dag) (e : DagError)
    → link_approvals rest d ≡ err e
    → Blames d (approval_deps rest) e
unfolding link_approvals
link_approvals_error [] d e h = absurd (ground arith)
link_approvals_error (a ∷ rest) d e h =
    elim (>>=-eq-err (link_deps a.id a.depends_on d) (link_approvals rest) e h) [
      | inl first ↦
          Blames-left d (adds a.id a.depends_on) (approval_deps rest) e
            (link_deps_error a.id a.depends_on d e first)
      | inr (d', first, later) ↦
          Blames-right d d' (adds a.id a.depends_on) (approval_deps rest) e
            (link_deps-nodes a.id a.depends_on d d' first) (link_approvals_error rest d' e later)
    ]

-- The error of the whole blames a declaration, where the nodes are those of the first two loops.
pub build_dag-Blames :
    (def : WorkflowDefinition) (e : DagError)
    → build_dag def ≡ err e
    → Blames (bare_dag def) (declared_deps def) e
unfolding build_dag
build_dag-Blames def e h =
    elim (>>=-eq-err (link_steps def.steps (bare_dag def)) (link_approvals def.approvals) e h) [
      | inl first ↦
          Blames-left (bare_dag def) (step_deps def.steps) (approval_deps def.approvals) e
            (link_steps_error def.steps (bare_dag def) e first)
      | inr (d', first, later) ↦
          Blames-right (bare_dag def) d' (step_deps def.steps) (approval_deps def.approvals) e
            (link_steps-nodes def.steps (bare_dag def) d' first)
            (link_approvals_error def.approvals d' e later)
    ]
