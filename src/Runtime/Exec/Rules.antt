-- ===== src/Runtime/Exec/Rules.antt =====
-- Rules for actions: invariants, and conditions on each way to end.
use swift_agent.Common.{◌≡◌, refl, Bool, true, false, if◌then◌else◌}
use swift_agent.Shared.{Fault}
use swift_agent.Runtime.Exec.{
  Outcome, returned, thrown, stopped, Exec, pure, throw, gets, modify, ◌>>=◌, catch, continue,
  handle,
}

-- `m` keeps `P`, however it ends.
pub record Keeps {St A : Type 0} (P : St → Type 0) (m : Exec St A) : Type 0 where
  pub at : (s : St) → P s → P (m s).1

module _ {St A : Type 0} {P : St → Type 0} where
  pub Keeps-gets : (f : St → A) → Keeps P (gets f)
  unfolding gets
  Keeps-gets f = record { at = λ st p. p }

  pub Keeps-throw : (f : Fault) → Keeps P (throw {A = A} f)
  unfolding throw
  Keeps-throw f = record { at = λ st p. p }

  pub Keeps-pure : (a : A) → Keeps P (pure a)
  unfolding pure
  Keeps-pure a = record { at = λ st p. p }

  pub Keeps-if :
      (test : Bool) (yes_ no_ : Exec St A)
      → Keeps P yes_
      → Keeps P no_
      → Keeps P (if test then yes_ else no_)
  Keeps-if true yes_ no_ h k = h
  Keeps-if false yes_ no_ h k = k

  keeps_handle :
      (r : Outcome A) (h : Fault → Exec St A) (s : St)
      → ((e : Fault) → Keeps P (h e))
      → P s
      → P (handle r h s).1
  keeps_handle (returned a) h s kh p = p
  keeps_handle (thrown e) h s kh p = (kh e).at s p
  keeps_handle stopped h s kh p = p

  pub Keeps-catch :
      (m : Exec St A) (h : Fault → Exec St A)
      → Keeps P m
      → ((e : Fault) → Keeps P (h e))
      → Keeps P (catch m h)
  unfolding catch
  Keeps-catch m h km kh = record { at = λ s p. keeps_handle (m s).0 h (m s).1 kh (km.at s p) }

pub Keeps-modify :
    {St : Type 0} {P : St → Type 0} (f : St → St) → ((s : St) → P s → P (f s)) → Keeps P (modify f)
unfolding modify
Keeps-modify f k = record { at = k }

module _ {St A B : Type 0} {P : St → Type 0} where
  keeps_continue :
      (r : Outcome A) (f : A → Exec St B) (s : St)
      → ((a : A) → Keeps P (f a))
      → P s
      → P (continue r f s).1
  keeps_continue (returned a) f s kf p = (kf a).at s p
  keeps_continue (thrown e) f s kf p = p
  keeps_continue stopped f s kf p = p

  pub Keeps-bind :
      (m : Exec St A) (rest : A → Exec St B)
      → Keeps P m
      → ((a : A) → Keeps P (rest a))
      → Keeps P (m >>= rest)
  unfolding ◌>>=◌
  Keeps-bind m f km kf = record { at = λ s p. keeps_continue (m s).0 f (m s).1 kf (km.at s p) }

pub ruleset keeps_rules = (Keeps-pure, Keeps-throw, Keeps-gets, Keeps-if, Keeps-catch, Keeps-bind)

-- What holds when an action returns, throws or is stopped.
module _ {St A : Type 0} (Q : A → St → Type 0) (X Y : St → Type 0) where
  abbrev pub Holds : Outcome A → St → Type 0
  Holds (returned a) s = Q a s
  Holds (thrown e) s = X s
  Holds stopped s = Y s

pub record Ensures {St A : Type 0} (P : St → Type 0) (m : Exec St A) (Q : A → St → Type 0)
    (X Y : St → Type 0) : Type 0 where
  pub at : (s : St) → P s → Holds Q X Y (m s).0 (m s).1

module _ {St A : Type 0} (P X Y : St → Type 0) (px : (s : St) → P s → X s)
    (py : (s : St) → P s → Y s) where
  Holds-same : (r : Outcome A) (s : St) → P s → Holds (λ _. P) X Y r s
  Holds-same (returned a) s p = p
  Holds-same (thrown e) s p = px s p
  Holds-same stopped s p = py s p

  pub Ensures_of_Keeps : (m : Exec St A) → Keeps P m → Ensures P m (λ _. P) X Y
  Ensures_of_Keeps m k = record { at = λ s p. Holds-same (m s).0 (m s).1 (k.at s p) }

module _ {St A B : Type 0} (X Y : St → Type 0) (Q : A → St → Type 0) (R : B → St → Type 0)
    (f : A → Exec St B) (ef : (a : A) → Ensures (Q a) (f a) R X Y) where
  ensures_continue :
      (r : Outcome A) (s : St) → Holds Q X Y r s → Holds R X Y (continue r f s).0 (continue r f s).1
  ensures_continue (returned a) s h = (ef a).at s h
  ensures_continue (thrown e) s h = h
  ensures_continue stopped s h = h

  pub Ensures-bind :
      {P : St → Type 0} (m : Exec St A) → Ensures P m Q X Y → Ensures P (m >>= f) R X Y
  unfolding ◌>>=◌
  Ensures-bind m em = record { at = λ s p. ensures_continue (m s).0 (m s).1 (em.at s p) }

module _ {St A : Type 0} (X X' Y : St → Type 0) (Q : A → St → Type 0) (h : Fault → Exec St A)
    (eh : (e : Fault) → Ensures X (h e) Q X' Y) where
  ensures_handle :
      (r : Outcome A) (s : St) → Holds Q X Y r s → Holds Q X' Y (handle r h s).0 (handle r h s).1
  ensures_handle (returned a) s p = p
  ensures_handle (thrown e) s p = (eh e).at s p
  ensures_handle stopped s p = p

  pub Ensures-catch :
      {P : St → Type 0} (m : Exec St A) → Ensures P m Q X Y → Ensures P (catch m h) Q X' Y
  unfolding catch
  Ensures-catch m em = record { at = λ s p. ensures_handle (m s).0 (m s).1 (em.at s p) }

-- Two continuations that agree wherever `m` may return.
module _ {St A B : Type 0} (P X Y : St → Type 0) (Q : A → St → Type 0) (f g : A → Exec St B)
    (agree : (a : A) (s : St) → Q a s → f a s ≡ g a s) where
  continue_agree : (r : Outcome A) (s : St) → Holds Q X Y r s → continue r f s ≡ continue r g s
  continue_agree (returned a) s h = agree a s h
  continue_agree (thrown e) s h = refl
  continue_agree stopped s h = refl

  pub bind_agree : (m : Exec St A) → Ensures P m Q X Y → (s : St) → P s → (m >>= f) s ≡ (m >>= g) s
  unfolding ◌>>=◌
  bind_agree m em s p = continue_agree (m s).0 (m s).1 (em.at s p)

-- Actions that always return.
module _ {St A : Type 0} (P X Y : St → Type 0) where
  pub Ensures-gets : (f : St → A) → Ensures P (gets f) (λ _. P) X Y
  unfolding gets
  Ensures-gets f = record { at = λ st p. p }

module _ {St : Type 0} (P Q X Y : St → Type 0) where
  pub Ensures-modify :
      (f : St → St) → ((s : St) → P s → Q (f s)) → Ensures P (modify f) (λ _. Q) X Y
  unfolding modify
  Ensures-modify f k = record { at = k }
