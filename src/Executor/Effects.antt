-- ===== src/Executor/Effects.antt =====
-- Statements of internal/engine/executor.go that act on the outside and may fail.
use flow_ctl.Prelude.{ℕ, suc, String, ◌∷◌, Result, ok, err, if◌then◌else◌}
use flow_ctl.Dag.{DagError}
use flow_ctl.Executor.World.{World, Event, ExecState}

pub data ExecError : Type 0 where
  load_failed : ExecError
  build_failed : DagError → ExecError
  invalid_transition : String → ExecError
  database : ExecError
  context : ExecError
  evaluation : String → ExecError
  no_runner : String → ExecError
  step_failed : String → ExecError
  panic : ExecError  -- a nil pointer is read
  waiting : ExecError  -- no answer to an approval within the polls that the model looks at
  unfinished : ExecError  -- the loop's fuel ran out

abbrev pub Action : Type 0 → Type 0
Action A = ExecState → Result ExecError A × ExecState

module _ {A : Type 0} where
  unfoldable pub pure : A → Action A
  pure a s = (ok a, s)

  unfoldable pub throw : ExecError → Action A
  throw e s = (err e, s)

  -- The answer to the next interaction.
  unfoldable pub ask : (ℕ → A) → Action A
  ask f s = (ok (f s.tick), record s { tick = suc s.tick })

  unfoldable pub gets : (ExecState → A) → Action A
  gets f s = (ok (f s), s)

  unfoldable pub lift : Result ExecError A → Action A
  lift r s = (r, s)

unfoldable pub emit : Event → Action Unit
emit e s = (ok tt, record s { trace = e ∷ s.trace })

module _ {A B : Type 0} where
  unfoldable pub and_then : Result ExecError A → (A → Action B) → Action B
  and_then (ok a) f = f a
  and_then (err e) f = throw e

  infixl 5 ◌>>=◌ ◌>>◌
  unfoldable pub ◌>>=◌ : Action A → (A → Action B) → Action B
  unfolding and_then
  m >>= f = λ s. let (r, s') = m s in and_then r f s'

  abbrev pub ◌>>◌ : Action A → Action B → Action B
  m >> n = m >>= λ _. n

module _ {A : Type 0} where
  -- A call whose error is dropped or only logged.
  unfoldable pub ignore : Action A → Action Unit
  ignore m s = (ok tt, (m s).1)

  -- The error of a call as a value: `result, err := m`.
  unfoldable pub try : Action A → Action (Result ExecError A)
  try m s = (ok (m s).0, (m s).1)

-- A statement that succeeds with the effect `e`, or fails without one.
unfoldable pub statement : World → Event → Action Unit
unfolding ◌>>=◌ ask emit throw
statement w e = do done ← ask w.statement_ok; if done then emit e else throw database
