-- ===== src/Executor/Trace/Events.antt =====
-- When a trace of `Execute` (internal/engine/executor.go) is in order, and which events keep it so.
use Prim.Native.String.{◌++◌ as text_append}
use flow_ctl.Prelude.{
  ◌≡◌, ◌⊎◌, ◌<◌, String, Bool, true, false, some, List, [], ◌∷◌, ◌||◌, ◌==◌, arith, count, get_list,
  has, Assoc, All, All-imp, lookup,
}
use flow_ctl.Model.Workflow.{StepDef}
use flow_ctl.Model.Execution.{StepResult}
use flow_ctl.Dag.{Dag, DagNode}
use flow_ctl.Executor.World.{
  World, Event, ExecState, set_status, run, wait, insert_step, finish_step, insert_approval,
  save_checkpoint, log_failure, audit_failure, complete, Request,
}
use flow_ctl.Executor.Keeps.{IsClosed}
use flow_ctl.Executor.KeepsSteps.{StepEvent}
use flow_ctl.Executor.KeepsApprovals.{IsApprovalEvent, IsMovable, times_of}

abbrev pub completed_in : String → List Event → Bool
completed_in k [] = false
completed_in k (complete id ∷ t) = id == k || completed_in k t
completed_in k (e ∷ t) = completed_in k t

-- Any event but a command.
abbrev pub IsQuiet : Event → Type 0
IsQuiet (run name req) = ⊥
IsQuiet _ = Unit

module _ (d : Dag) (base : Assoc StepResult) where
  -- Node `k` was complete in the checkpoint, or the trace completes it.
  abbrev pub is_done : String → List Event → Bool
  is_done k t = has k base || completed_in k t

  abbrev pub DepsDone : String → List Event → Type 0
  DepsDone k t = (a : String) → 0 < count a (get_list k d.in_edges) → is_done a t ≡ true

  -- The step definition of a node of the graph.
  pub record Defines (id : String) (def : StepDef) : Type 0 where
    pub node : DagNode
    pub found : lookup id d.nodes ≡ some node
    pub defined : node.step_def ≡ some def

  -- The command is that of a node's step, or of its compensation, and the node's dependencies are done.
  pub record RanReady (req : Request) (t : List Event) : Type 0 where
    pub node : String
    pub def : StepDef
    pub defines : Defines node def
    pub of_node : (req.step_id ≡ def.id) ⊎ (req.step_id ≡ text_append def.id "_compensation")
    pub deps : DepsDone node t

  -- Of every command, with the events before it.
  abbrev pub IsOrdered : List Event → Type 0
  IsOrdered [] = Unit
  IsOrdered (run name req ∷ t) = RanReady req t × IsOrdered t
  IsOrdered (e ∷ t) = IsOrdered t

  pub is_done-cons :
      (k : String) (e : Event) (t : List Event) → is_done k t ≡ true → is_done k (e ∷ t) ≡ true
  is_done-cons k (complete id) t h = ground arith
  is_done-cons k (run a b) t h = h
  is_done-cons k _ t h = h

  -- While the nodes `ids` are at work, one after the other: the trace is in order, their dependencies are
  -- done, and so are the nodes in `completed`.
  pub record AtWork (ids : List String) (completed : Assoc StepResult) (s : ExecState)
      : Type 0 where
    pub ordered : IsOrdered s.trace
    pub deps : All (λ id. DepsDone id s.trace) ids
    pub synced : (k : String) → has k completed ≡ true → is_done k s.trace ≡ true

  module _ (ids : List String) (completed : Assoc StepResult) where
    AtWork-cons :
        (e : Event) (s : ExecState)
        → IsOrdered (e ∷ s.trace)
        → AtWork ids completed s
        → AtWork ids completed (record s { trace = e ∷ s.trace })
    AtWork-cons e s o h = record {
      ordered = o;
      deps =
          All-imp (λ id. DepsDone id s.trace) (λ id. DepsDone id (e ∷ s.trace))
            (λ id k a p. is_done-cons a e s.trace (k a p)) ids h.deps;
      synced = λ k p. is_done-cons k e s.trace (h.synced k p);
    }

    pub AtWork-IsQuiet : IsClosed (AtWork ids completed) IsQuiet
    AtWork-IsQuiet = record {
      ticks = λ s h. record { ordered = h.ordered; deps = h.deps; synced = h.synced };
      emits = by_event;
    }
      where
        by_event :
            (e : Event) (s : ExecState)
            → IsQuiet e
            → AtWork ids completed s
            → AtWork ids completed (record s { trace = e ∷ s.trace })
        by_event (run name req) s p h = absurd p
        by_event (set_status a b c) s p h = AtWork-cons (set_status a b c) s h.ordered h
        by_event (wait n) s p h = AtWork-cons (wait n) s h.ordered h
        by_event (insert_step a b c x y z n) s p h =
            AtWork-cons (insert_step a b c x y z n) s h.ordered h
        by_event (finish_step a b c x y) s p h = AtWork-cons (finish_step a b c x y) s h.ordered h
        by_event (insert_approval a b c) s p h = AtWork-cons (insert_approval a b c) s h.ordered h
        by_event (save_checkpoint m) s p h = AtWork-cons (save_checkpoint m) s h.ordered h
        by_event (log_failure a) s p h = AtWork-cons (log_failure a) s h.ordered h
        by_event (audit_failure a) s p h = AtWork-cons (audit_failure a) s h.ordered h
        by_event (complete a) s p h = AtWork-cons (complete a) s h.ordered h

    pub AtWork-approvals : IsClosed (AtWork ids completed) IsApprovalEvent
    AtWork-approvals = record { ticks = AtWork-IsQuiet.ticks; emits = by_event }
      where
        by_event :
            (e : Event) (s : ExecState)
            → IsApprovalEvent e
            → AtWork ids completed s
            → AtWork ids completed (record s { trace = e ∷ s.trace })
        by_event (insert_approval a b c) s p h = AtWork-IsQuiet.emits (insert_approval a b c) s tt h
        by_event _ s p h = absurd p

    pub AtWork-moves : (w : World) → IsMovable w (AtWork ids completed)
    AtWork-moves w = record {
      ticks = AtWork-IsQuiet.ticks;
      moves = λ to s e h.
          let t = times_of s.exec to (w.now s.tick) in
          let k = AtWork-IsQuiet.emits (set_status to t.0 t.1) s tt h in
          record { ordered = k.ordered; deps = k.deps; synced = k.synced };
    }

  module _ (id : String) (def : StepDef) (defines : Defines id def) (ids : List String)
      (completed : Assoc StepResult) where
    pub AtWork-steps : IsClosed (AtWork (id ∷ ids) completed) (StepEvent def.id)
    AtWork-steps = record { ticks = (AtWork-IsQuiet (id ∷ ids) completed).ticks; emits = by_event }
      where
        quiet : IsClosed (AtWork (id ∷ ids) completed) IsQuiet
        quiet = AtWork-IsQuiet (id ∷ ids) completed

        by_event :
            (e : Event) (s : ExecState)
            → StepEvent def.id e
            → AtWork (id ∷ ids) completed s
            → AtWork (id ∷ ids) completed (record s { trace = e ∷ s.trace })
        by_event (run name req) s p h =
            AtWork-cons (id ∷ ids) completed (run name req) s
              (
                record { node = id; def = def; defines = defines; of_node = p; deps = h.deps.0 },
                h.ordered,
              )
              h
        by_event (wait n) s p h = quiet.emits (wait n) s tt h
        by_event (insert_step a b c x y z n) s p h = quiet.emits (insert_step a b c x y z n) s tt h
        by_event (finish_step a b c x y) s p h = quiet.emits (finish_step a b c x y) s tt h
        by_event _ s p h = absurd p
