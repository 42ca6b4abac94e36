-- ===== src/Executor/Keeps.antt =====
-- Invariants of the executor's actions (internal/engine/executor.go), one rule for each way to build
-- an action.
use flow_ctl.Prelude.{Bool, true, false, if◌then◌else◌, Result, ok, err, suc, ◌∷◌}
use flow_ctl.Executor.World.{World, Event, ExecState}
use flow_ctl.Executor.Effects.{
  Action, ExecError, database, pure, throw, ask, gets, lift, emit, and_then, ignore, try, statement,
  ◌>>=◌,
}

-- `m` keeps `I`, whether it returns or fails.
pub record Keeps {A : Type 0} (I : ExecState → Type 0) (m : Action A) : Type 0 where
  pub at : (s : ExecState) → I s → I (m s).1

-- `I` does not depend on the number of interactions, and it bears events of the kind `P`.
pub record IsClosed (I : ExecState → Type 0) (P : Event → Type 0) : Type 0 where
  pub ticks : (s : ExecState) → I s → I (record s { tick = suc s.tick })
  pub emits : (e : Event) (s : ExecState) → P e → I s → I (record s { trace = e ∷ s.trace })

module _ {I : ExecState → Type 0} {A : Type 0} where
  pub Keeps-pure : (a : A) → Keeps I (pure a)
  unfolding pure
  Keeps-pure a = record { at = λ s h. h }

  pub Keeps-throw : (e : ExecError) → Keeps I (throw {A = A} e)
  unfolding throw
  Keeps-throw e = record { at = λ s h. h }

  pub Keeps-gets : (f : ExecState → A) → Keeps I (gets f)
  unfolding gets
  Keeps-gets f = record { at = λ s h. h }

  pub Keeps-lift : (r : Result ExecError A) → Keeps I (lift r)
  unfolding lift
  Keeps-lift r = record { at = λ s h. h }

  pub Keeps-ignore : (m : Action A) → Keeps I m → Keeps I (ignore m)
  unfolding ignore
  Keeps-ignore m k = record { at = k.at }

  pub Keeps-try : (m : Action A) → Keeps I m → Keeps I (try m)
  unfolding try
  Keeps-try m k = record { at = k.at }

  pub Keeps-if : (b : Bool) (m n : Action A) → Keeps I m → Keeps I n → Keeps I (if b then m else n)
  Keeps-if true m n km kn = km
  Keeps-if false m n km kn = kn

module _ {I : ExecState → Type 0} {A B : Type 0} where
  pub Keeps-bind :
      (m : Action A) (f : A → Action B) → Keeps I m → ((a : A) → Keeps I (f a)) → Keeps I (m >>= f)
  unfolding ◌>>=◌ throw
  Keeps-bind m f km kf = record { at = λ s h. rest (m s).0 (m s).1 (km.at s h) }
    where
      rest : (r : Result ExecError A) (s : ExecState) → I s → I (and_then r f s).1
      rest (ok a) s h = (kf a).at s h
      rest (err e) s h = h

module _ {I : ExecState → Type 0} {P : Event → Type 0} (c : IsClosed I P) where
  pub Keeps-ask : {A : Type 0} (f : _ → A) → Keeps I (ask f)
  unfolding ask
  Keeps-ask f = record { at = c.ticks }

  pub Keeps-emit : (e : Event) → P e → Keeps I (emit e)
  unfolding emit
  Keeps-emit e p = record { at = λ s. c.emits e s p }

  pub Keeps-statement : (w : World) (e : Event) → P e → Keeps I (statement w e)
  unfolding statement
  Keeps-statement w e p =
      Keeps-bind (ask w.statement_ok) (λ done. if done then emit e else throw database)
        (Keeps-ask w.statement_ok)
        (λ done. Keeps-if done (emit e) (throw database) (Keeps-emit e p) (Keeps-throw database))

pub ruleset keeps_rules =
    (Keeps-pure, Keeps-throw, Keeps-gets, Keeps-lift, Keeps-ignore, Keeps-try, Keeps-if, Keeps-bind)
