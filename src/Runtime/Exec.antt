-- ===== src/Runtime/Exec.antt =====
-- Stateful code of an async generator: it returns, throws, or is stopped at a `yield` by its
-- consumer. What was written before stays written.
pub mod Rules
use swift_agent.Common.{Bool, true, false, ◌≡◌}
use swift_agent.Shared.{Fault}

pub data Outcome {ℓ} (A : Type ℓ) : Type ℓ where
  returned : A → Outcome A
  thrown : Fault → Outcome A
  stopped : Outcome A

abbrev pub Exec : Type 0 → Type 0 → Type 0
Exec St A = St → Outcome A × St

module _ {St A : Type 0} where
  unfoldable pub pure : A → Exec St A
  pure a s = (returned a, s)

  unfoldable pub throw : Fault → Exec St A
  throw f s = (thrown f, s)

  unfoldable pub stop : Exec St A
  stop s = (stopped, s)

  unfoldable pub gets : (St → A) → Exec St A
  gets f s = (returned (f s), s)

unfoldable pub modify : {St : Type 0} → (St → St) → Exec St (Unit {0})
modify f s = (returned tt, f s)

module _ {St A B : Type 0} where
  abbrev pub continue : Outcome A → (A → Exec St B) → Exec St B
  continue (returned a) rest s = rest a s
  continue (thrown fault) rest s = (thrown fault, s)
  continue stopped rest s = (stopped, s)

  infixl 10 ◌>>=◌ ◌>>◌
  unfoldable pub ◌>>=◌ : Exec St A → (A → Exec St B) → Exec St B
  ◌>>=◌ m rest s = let (r, t) = m s in continue r rest t

  abbrev pub ◌>>◌ : Exec St A → Exec St B → Exec St B
  first >> second = first >>= λ _. second

module _ {St A : Type 0} where
  -- `catch` handles a thrown error only.
  abbrev pub handle : Outcome A → (Fault → Exec St A) → Exec St A
  handle (returned a) h s = (returned a, s)
  handle (thrown e) h s = h e s
  handle stopped h s = (stopped, s)

  unfoldable pub catch : Exec St A → (Fault → Exec St A) → Exec St A
  catch m h s = let (r, s') = m s in handle r h s'

  -- `finally`, with a clean-up that always returns.
  unfoldable pub finally : Exec St A → (St → St) → Exec St A
  finally m clean s = let (r, s') = m s in (r, clean s')
