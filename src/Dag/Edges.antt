-- ===== src/Dag/Edges.antt =====
-- `BuildDAG` of internal/engine/dag.go: when it succeeds, and the edges that it records.
use flow_ctl.Prelude.{
  ◌≡◌, refl, sym, ap, ◌∙◌, subst, inl, inr, String, true, false, List, [], ◌∷◌, ◌++◌, ◌==◌,
  if◌then◌else◌, has, arith, get_list, append_at, get_list-append_at, ==-cases, Bool-cases, Result,
  ok, >>=-eq-ok, mem, eq_refl, lookup,
}
use mathlib.Core.List.{append_assoc, append-nil}
use flow_ctl.Model.Workflow.{StepDef, ApprovalDef, WorkflowDefinition}
use flow_ctl.Dag.Graph.{
  Dag, DagError, link_deps, link_steps, link_approvals, bare_dag, build_dag, IsDag,
}
use flow_ctl.Dag.Build.{
  link, link-IsDag, step_ids, approval_ids, has-bare_dag, step_nodes-IsMap, approval_nodes-IsMap,
}

-- What a sequence of links does to `d`, giving `d'`: the nodes stay, the graph stays well formed,
-- and node `j` has the dependencies `more j` behind those that it had.
pub record Linked (more : String → List String) (d d' : Dag) : Type 0 where
  pub same_nodes : d'.nodes ≡ d.nodes
  pub still : IsDag d → IsDag d'
  pub upstream : (j : String) → get_list j d'.in_edges ≡ get_list j d.in_edges ++ more j

-- The dependencies that the declaration of `id` adds to node `j`.
abbrev pub adds : String → List String → String → List String
adds id deps j = if id == j then deps else []

Linked-nil : (id : String) (d : Dag) → Linked (adds id []) d d
Linked-nil id d = record {
  same_nodes = refl;
  still = λ h. h;
  upstream = λ j. elim (==-cases id j) [
    | inl e ↦ rw e.0 (sym (append-nil (get_list j d.in_edges)))
    | inr e ↦ rw e.0 (sym (append-nil (get_list j d.in_edges)))
  ];
}

pub ok-injective : {d d' : Dag} → ◌≡◌ {A = Result DagError Dag} (ok d) (ok d') → d ≡ d'
ok-injective e = cc

pub link_deps-Linked :
    (id : String) (deps : List String) (d d' : Dag)
    → has id d.nodes ≡ true
    → link_deps id deps d ≡ ok d'
    → Linked (adds id deps) d d'
unfolding link_deps
link_deps-Linked id [] d d' own h = subst (Linked (adds id []) d) (ok-injective h) (Linked-nil id d)
link_deps-Linked id (dep ∷ deps) d d' own h = elim (Bool-cases (has dep d.nodes)) [
  | inr e ↦ absurd (refused e)
  | inl e ↦
      let rest = link_deps-Linked id deps (link id dep d) d' own (ground (arith, e)) in
      record {
        same_nodes = rest.same_nodes;
        still = λ g. rest.still (link-IsDag id dep d own e g);
        upstream = λ j. rest.upstream j ∙ step j;
      }
]
  where
    refused : has dep d.nodes ≡ false → ⊥
    refused e = ground arith

    step :
        (j : String)
        → get_list j (append_at id dep d.in_edges) ++ adds id deps j
          ≡ get_list j d.in_edges ++ adds id (dep ∷ deps) j
    step j = elim (==-cases id j) [
      | inl e ↦
          rw (get_list-append_at id j dep d.in_edges, e.0)
            (append_assoc (get_list j d.in_edges) (dep ∷ []) deps)
      | inr e ↦ rw (get_list-append_at id j dep d.in_edges, e.0)
    ]

pub link_deps-nodes :
    (id : String) (deps : List String) (d d' : Dag)
    → link_deps id deps d ≡ ok d'
    → d'.nodes ≡ d.nodes
unfolding link_deps
link_deps-nodes id [] d d' h = ap (λ x. x.nodes) (sym (ok-injective h))
link_deps-nodes id (dep ∷ deps) d d' h = elim (Bool-cases (has dep d.nodes)) [
  | inr e ↦ absurd (ground arith)
  | inl e ↦ link_deps-nodes id deps (link id dep d) d' (ground (arith, e))
]

pub link_steps-nodes :
    (ss : List StepDef) (d d' : Dag) → link_steps ss d ≡ ok d' → d'.nodes ≡ d.nodes
unfolding link_steps
link_steps-nodes [] d d' h = ap (λ x. x.nodes) (sym (ok-injective h))
link_steps-nodes (s ∷ ss) d d' h =
    let (d₁, first, others) = >>=-eq-ok (link_deps s.id s.depends_on d) (link_steps ss) h in
    link_steps-nodes ss d₁ d' others ∙ link_deps-nodes s.id s.depends_on d d₁ first

Linked-trans :
    (f g : String → List String) (d d' d'' : Dag)
    → Linked f d d'
    → Linked g d' d''
    → Linked (λ j. f j ++ g j) d d''
Linked-trans f g d d' d'' p q = record {
  same_nodes = q.same_nodes ∙ p.same_nodes;
  still = λ h. q.still (p.still h);
  upstream =
      λ j. rw (q.upstream j, p.upstream j) (append_assoc (get_list j d.in_edges) (f j) (g j));
}

-- The dependencies that the declarations of a workflow give to node `j`, in the order of the text.
abbrev pub step_deps : List StepDef → String → List String
step_deps [] j = []
step_deps (s ∷ ss) j = adds s.id s.depends_on j ++ step_deps ss j

abbrev pub approval_deps : List ApprovalDef → String → List String
approval_deps [] j = []
approval_deps (a ∷ rest) j = adds a.id a.depends_on j ++ approval_deps rest j

abbrev pub declared_deps : WorkflowDefinition → String → List String
declared_deps def j = step_deps def.steps j ++ approval_deps def.approvals j

Linked-none : (d : Dag) → Linked (λ _. []) d d
Linked-none d = record {
  same_nodes = refl;
  still = λ h. h;
  upstream = λ j. sym (append-nil (get_list j d.in_edges));
}

link_steps-Linked :
    (ss : List StepDef) (d d' : Dag)
    → ((k : String) → mem k (step_ids ss) ≡ true → has k d.nodes ≡ true)
    → link_steps ss d ≡ ok d'
    → Linked (step_deps ss) d d'
unfolding link_steps
link_steps-Linked [] d d' own h = subst (Linked (λ _. []) d) (ok-injective h) (Linked-none d)
link_steps-Linked (s ∷ ss) d d' own h =
    let (d₁, first, others) = >>=-eq-ok (link_deps s.id s.depends_on d) (link_steps ss) h in
    let linked =
      link_deps-Linked s.id s.depends_on d d₁ (own s.id (ground (arith, eq_refl s.id))) first in
    Linked-trans (adds s.id s.depends_on) (step_deps ss) d d₁ d' linked
      (link_steps-Linked ss d₁ d' (λ k m. rw linked.same_nodes (own k (ground arith))) others)

link_approvals-Linked :
    (rest : List ApprovalDef) (d d' : Dag)
    → ((k : String) → mem k (approval_ids rest) ≡ true → has k d.nodes ≡ true)
    → link_approvals rest d ≡ ok d'
    → Linked (approval_deps rest) d d'
unfolding link_approvals
link_approvals-Linked [] d d' own h = subst (Linked (λ _. []) d) (ok-injective h) (Linked-none d)
link_approvals-Linked (a ∷ rest) d d' own h =
    let (d₁, first, others) = >>=-eq-ok (link_deps a.id a.depends_on d) (link_approvals rest) h in
    let linked =
      link_deps-Linked a.id a.depends_on d d₁ (own a.id (ground (arith, eq_refl a.id))) first in
    Linked-trans (adds a.id a.depends_on) (approval_deps rest) d d₁ d' linked
      (link_approvals-Linked rest d₁ d' (λ k m. rw linked.same_nodes (own k (ground arith))) others)

pub build_dag-Linked :
    (def : WorkflowDefinition) (d : Dag)
    → build_dag def ≡ ok d
    → Linked (declared_deps def) (bare_dag def) d
unfolding build_dag
build_dag-Linked def d h =
    let (d₁, first, others) =
      >>=-eq-ok (link_steps def.steps (bare_dag def)) (link_approvals def.approvals) h in
    let linked =
      link_steps-Linked def.steps (bare_dag def) d₁ (λ k m. ground (arith, has-bare_dag k def))
        first in
    Linked-trans (step_deps def.steps) (approval_deps def.approvals) (bare_dag def) d₁ d linked (
      link_approvals-Linked def.approvals d₁ d
        (λ k m. rw linked.same_nodes (ground (arith, has-bare_dag k def))) others)

bare_dag-IsDag : (def : WorkflowDefinition) → IsDag (bare_dag def)
unfolding get_list lookup
bare_dag-IsDag def = record {
  nodes_map =
      approval_nodes-IsMap def.approvals _ (step_nodes-IsMap def.steps [] (λ k. omega arith));
  mirrored = λ a b. refl;
  closed = λ a b h. absurd (omega arith);
}

-- A graph that `BuildDAG` returns is well formed: no node stands twice, every edge is recorded at
-- both of its ends equally often, and both ends of every edge are nodes.
pub build_dag-IsDag : (def : WorkflowDefinition) (d : Dag) → build_dag def ≡ ok d → IsDag d
build_dag-IsDag def d h = (build_dag-Linked def d h).still (bare_dag-IsDag def)
