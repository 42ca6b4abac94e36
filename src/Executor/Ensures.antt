-- ===== src/Executor/Ensures.antt =====
-- What an action of internal/engine/executor.go leaves behind, where it depends on its result.
use flow_ctl.Prelude.{Bool, true, false, if◌then◌else◌, Result, ok, err}
use flow_ctl.Executor.World.{ExecState}
use flow_ctl.Executor.Effects.{Action, ExecError, pure, throw, and_then, ◌>>=◌}
use flow_ctl.Executor.Keeps.{Keeps}

-- `Q` of the value and the state, or `X` of the state after an error.
abbrev pub Post :
    {A : Type 0}
    → (A → ExecState → Type 0)
    → (ExecState → Type 0)
    → Result ExecError A
    → ExecState
    → Type 0
Post Q X (ok a) s = Q a s
Post Q X (err e) s = X s

pub record Ensures {A : Type 0} (P : ExecState → Type 0) (m : Action A) (Q : A → ExecState → Type 0)
    (X : ExecState → Type 0) : Type 0 where
  pub at : (s : ExecState) → P s → Post Q X (m s).0 (m s).1

module _ {A : Type 0} {P : ExecState → Type 0} {Q : A → ExecState → Type 0}
    {X : ExecState → Type 0} where
  pub Ensures-pure : (a : A) → ((s : ExecState) → P s → Q a s) → Ensures P (pure a) Q X
  unfolding pure
  Ensures-pure a h = record { at = h }

  pub Ensures-throw : (e : ExecError) → ((s : ExecState) → P s → X s) → Ensures P (throw e) Q X
  unfolding throw
  Ensures-throw e h = record { at = h }

  pub Ensures-if :
      (b : Bool) (m n : Action A)
      → Ensures P m Q X
      → Ensures P n Q X
      → Ensures P (if b then m else n) Q X
  Ensures-if true m n em en = em
  Ensures-if false m n em en = en

-- What is kept holds after a value and after an error.
pub Ensures_of_Keeps :
    {A : Type 0} {I : ExecState → Type 0} (m : Action A) → Keeps I m → Ensures I m (λ a s. I s) I
Ensures_of_Keeps {A} {I} m k = record { at = λ s h. after (m s).0 (m s).1 (k.at s h) }
  where
    after : (r : Result ExecError A) (s : ExecState) → I s → Post (λ a s. I s) I r s
    after (ok a) s h = h
    after (err e) s h = h

module _ {A B : Type 0} {P : ExecState → Type 0} {Q : A → ExecState → Type 0}
    {R : B → ExecState → Type 0} {X Y : ExecState → Type 0} where
  pub Ensures-bind :
      (m : Action A) (f : A → Action B)
      → Ensures P m Q X
      → ((a : A) → Ensures (Q a) (f a) R Y)
      → ((s : ExecState) → X s → Y s)
      → Ensures P (m >>= f) R Y
  unfolding ◌>>=◌ throw
  Ensures-bind m f em ef weaker = record { at = λ s h. rest (m s).0 (m s).1 (em.at s h) }
    where
      rest :
          (r : Result ExecError A) (s : ExecState)
          → Post Q X r s
          → Post R Y (and_then r f s).0 (and_then r f s).1
      rest (ok a) s h = (ef a).at s h
      rest (err e) s h = weaker s h
