-- ===== src/Executor/Step/Attempts.antt =====
-- internal/engine/executor.go: the attempts of the retry loop of `executeStep`.
use flow_ctl.Prelude.{
  ◌≡◌, refl, sym, ap, ◌∙◌, ◌⊎◌, inl, inr, ℕ, zero, suc, ◌+◌, ◌*◌, ◌<◌, String, Bool, true, false,
  Option, some, List, [], ◌∷◌, eqb, arith, if◌then◌else◌, Bool-cases, Result, ok, err,
}
use flow_ctl.Model.Workflow.{RetryPolicy}
use flow_ctl.Executor.World.{World, Request, RunOutcome, Event, ExecState, run, wait}
use flow_ctl.Executor.Effects.{Action, ExecError, context, pure, throw, ask, emit, ◌>>=◌}
use flow_ctl.Executor.Backoff.{calculate_backoff}
use flow_ctl.Executor.Step.{run_once, run_attempts, succeeds}

-- The number of commands run.
abbrev pub runs : List Event → ℕ
runs [] = 0
runs (run name req ∷ t) = suc (runs t)
runs (e ∷ t) = runs t

module _ (w : World) (r : ℕ → Request → RunOutcome) (req : Request) where
  -- The outcome of attempt `k` of a loop that starts at the interaction `tick`: an attempt that is
  -- followed by another takes two interactions, the run and the check of the context.
  abbrev pub outcome_at : ℕ → ℕ → RunOutcome
  outcome_at tick k = r (tick + 2 * k) req

  -- Whether the context is done while the loop waits after attempt `k`.
  abbrev pub done_at : ℕ → ℕ → Bool
  done_at tick k = w.context_done (suc (tick + 2 * k))

  -- Of at most `left` attempts, attempt `k` is the last: all before it fail, and it succeeds or is the
  -- last one allowed; the context is alive after each before it. `o` is its outcome, and the number
  -- of runs goes from `n` to `m`.
  pub record Attempted (left tick n : ℕ) (o : Option RunOutcome) (m : ℕ) : Type 0 where
    pub k : ℕ
    pub allowed : k < left
    pub outcome : o ≡ some (outcome_at tick k)
    pub failed : (j : ℕ) → j < k → succeeds (outcome_at tick j) ≡ false
    pub alive : (j : ℕ) → j < k → done_at tick j ≡ false
    pub stops : (succeeds (outcome_at tick k) ≡ true) ⊎ (suc k ≡ left)
    pub counted : m ≡ n + suc k

  -- Attempt `k` fails as all before it, another one is allowed, and the context is done after `k` and
  -- after none before it.
  pub record Abandoned (left tick n m : ℕ) : Type 0 where
    pub k : ℕ
    pub allowed : suc k < left
    pub failed : (j : ℕ) → j < suc k → succeeds (outcome_at tick j) ≡ false
    pub alive : (j : ℕ) → j < k → done_at tick j ≡ false
    pub done : done_at tick k ≡ true
    pub counted : m ≡ n + suc k

  outcome_at-suc : (tick k : ℕ) → outcome_at (suc (suc tick)) k ≡ outcome_at tick (suc k)
  outcome_at-suc tick k = ap (λ i. r i req) (omega arith)

  outcome_at-zero : (tick : ℕ) → outcome_at tick 0 ≡ r tick req
  outcome_at-zero tick = ap (λ i. r i req) (omega arith)

  done_at-suc : (tick k : ℕ) → done_at (suc (suc tick)) k ≡ done_at tick (suc k)
  done_at-suc tick k = ap (λ i. w.context_done i) (omega arith)

  done_at-zero : (tick : ℕ) → done_at tick 0 ≡ w.context_done (suc tick)
  done_at-zero tick = ap (λ i. w.context_done i) (omega arith)

  failed-suc :
      (tick k : ℕ)
      → succeeds (r tick req) ≡ false
      → ((j : ℕ) → j < k → succeeds (outcome_at (suc (suc tick)) j) ≡ false)
      → (j : ℕ) → j < suc k
      → succeeds (outcome_at tick j) ≡ false
  failed-suc tick k first h zero l = ap succeeds (outcome_at-zero tick) ∙ first
  failed-suc tick k first h (suc j) l =
      ap succeeds (sym (outcome_at-suc tick j)) ∙ h j (omega (arith, l))

  alive-suc :
      (tick k : ℕ)
      → w.context_done (suc tick) ≡ false
      → ((j : ℕ) → j < k → done_at (suc (suc tick)) j ≡ false)
      → (j : ℕ) → j < suc k
      → done_at tick j ≡ false
  alive-suc tick k first h zero l = done_at-zero tick ∙ first
  alive-suc tick k first h (suc j) l = sym (done_at-suc tick j) ∙ h j (omega (arith, l))

  -- The first attempt fails with the context alive, and the others follow.
  Attempted-suc :
      (left tick n m : ℕ) (o : Option RunOutcome)
      → succeeds (r tick req) ≡ false
      → w.context_done (suc tick) ≡ false
      → Attempted left (suc (suc tick)) (suc n) o m
      → Attempted (suc left) tick n o m
  Attempted-suc left tick n m o first awake h = record {
    k = suc h.k;
    allowed = omega (arith, h.allowed);
    outcome = h.outcome ∙ ap some (outcome_at-suc tick h.k);
    failed = failed-suc tick h.k first h.failed;
    alive = alive-suc tick h.k awake h.alive;
    stops = stops h.stops;
    counted = omega (arith, h.counted);
  }
    where
      stops :
          (succeeds (outcome_at (suc (suc tick)) h.k) ≡ true) ⊎ (suc h.k ≡ left)
          → (succeeds (outcome_at tick (suc h.k)) ≡ true) ⊎ (suc (suc h.k) ≡ suc left)
      stops (inl p) = inl (ap succeeds (sym (outcome_at-suc tick h.k)) ∙ p)
      stops (inr p) = inr (ap suc p)

  Attempted-zero :
      (left tick n : ℕ)
      → (succeeds (r tick req) ≡ true) ⊎ (1 ≡ suc left)
      → Attempted (suc left) tick n (some (r tick req)) (suc n)
  Attempted-zero left tick n h = record {
    k = 0;
    allowed = omega arith;
    outcome = ap some (sym (outcome_at-zero tick));
    failed = λ j l. absurd (omega (arith, l));
    alive = λ j l. absurd (omega (arith, l));
    stops = stops h;
    counted = omega arith;
  }
    where
      stops :
          (succeeds (r tick req) ≡ true) ⊎ (1 ≡ suc left)
          → (succeeds (outcome_at tick 0) ≡ true) ⊎ (1 ≡ suc left)
      stops (inl p) = inl (ap succeeds (outcome_at-zero tick) ∙ p)
      stops (inr p) = inr p

  Abandoned-suc :
      (left tick n m : ℕ)
      → succeeds (r tick req) ≡ false
      → w.context_done (suc tick) ≡ false
      → Abandoned left (suc (suc tick)) (suc n) m
      → Abandoned (suc left) tick n m
  Abandoned-suc left tick n m first awake h = record {
    k = suc h.k;
    allowed = omega (arith, h.allowed);
    failed = failed-suc tick (suc h.k) first h.failed;
    alive = alive-suc tick h.k awake h.alive;
    done = sym (done_at-suc tick h.k) ∙ h.done;
    counted = omega (arith, h.counted);
  }

  Abandoned-zero :
      (left tick n : ℕ)
      → succeeds (r tick req) ≡ false
      → w.context_done (suc tick) ≡ true
      → Abandoned (suc (suc left)) tick n (suc n)
  Abandoned-zero left tick n bad done = record {
    k = 0;
    allowed = omega arith;
    failed = failed-suc tick 0 bad (λ j l. absurd (omega (arith, l)));
    alive = λ j l. absurd (omega (arith, l));
    done = done_at-zero tick ∙ done;
    counted = omega arith;
  }

  -- What the loop comes to: an attempt's outcome, or the error of a context that is done.
  abbrev pub LoopEnds :
      (left : ℕ) → ExecState → Result ExecError (Option RunOutcome) × ExecState → Type 0
  LoopEnds left s (ok o, s') = Attempted left s.tick (runs s.trace) o (runs s'.trace)
  LoopEnds left s (err e, s') = (e ≡ context) × Abandoned left s.tick (runs s.trace) (runs s'.trace)

  LoopEnds-suc :
      (left : ℕ) (s s' : ExecState) (out : Result ExecError (Option RunOutcome) × ExecState)
      → succeeds (r s.tick req) ≡ false
      → w.context_done (suc s.tick) ≡ false
      → s'.tick ≡ suc (suc s.tick)
      → runs s'.trace ≡ suc (runs s.trace)
      → LoopEnds left s' out
      → LoopEnds (suc left) s out
  LoopEnds-suc left s s' (ok o, t) bad awake ticks counts h =
      Attempted-suc left s.tick (runs s.trace) (runs t.trace) o bad awake (rw (← ticks, ← counts) h)
  LoopEnds-suc left s s' (err e, t) bad awake ticks counts h = (
    h.0,
    Abandoned-suc left s.tick (runs s.trace) (runs t.trace) bad awake (rw (← ticks, ← counts) h.1),
  )

  -- With at least one attempt allowed, the retry loop runs the command until the first success or until no
  -- attempt is left, once for each attempt, with the context alive after each failure before the
  -- last attempt, and gives the outcome of the last attempt; or the context is done after a failed
  -- attempt that another one could follow, and the loop gives the context's error and runs nothing more.
  pub run_attempts_lem :
      (name : String) (retry : Option RetryPolicy) (left attempt : ℕ) (last : Option RunOutcome)
      (s : ExecState)
      → LoopEnds (suc left) s (run_attempts w name r req retry (suc left) attempt last s)
  unfolding run_attempts run_once ◌>>=◌ pure throw ask emit
  run_attempts_lem name retry zero attempt last s = elim (Bool-cases (succeeds (r s.tick req))) [
    | inl good ↦ rw good (Attempted-zero 0 s.tick (runs s.trace) (inl good))
    | inr bad ↦ rw bad (Attempted-zero 0 s.tick (runs s.trace) (inr refl))
  ]
  run_attempts_lem name retry (suc left) attempt last s =
      let s' : ExecState = record s {
        tick = suc (suc s.tick);
        trace = wait (calculate_backoff w attempt retry) ∷ run name req ∷ s.trace;
      } in
      let later = run_attempts_lem name retry left (attempt + 1) (some (r s.tick req)) s' in
      elim (Bool-cases (succeeds (r s.tick req))) [
        | inl good ↦ rw good (Attempted-zero (suc left) s.tick (runs s.trace) (inl good))
        | inr bad ↦
            let more : eqb (suc left) 0 ≡ false = ground arith in
            rw (bad, more)
              (waited s'
                (run_attempts w name r req retry (suc left) (attempt + 1) (some (r s.tick req)))
                refl (w.context_done (suc s.tick))
                (λ done. Abandoned-zero left s.tick (runs s.trace) bad done)
                (λ awake. LoopEnds-suc (suc left) s s' _ bad awake refl refl later))
      ]
    where
      -- After the first failure the check of the context decides.
      waited :
          (s' : ExecState) (m : Action (Option RunOutcome))
          → runs s'.trace ≡ suc (runs s.trace)
          → (done : Bool)
          → (done ≡ true → Abandoned (suc (suc left)) s.tick (runs s.trace) (suc (runs s.trace)))
          → (done ≡ false → LoopEnds (suc (suc left)) s (m s'))
          → LoopEnds (suc (suc left)) s ((if done then throw context else m) s')
      waited s' m counts true h k = (refl, rw counts (h refl))
      waited s' m counts false h k = k refl
