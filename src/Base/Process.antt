-- ===== src/Base/Process.antt =====
-- What a piece of a C process comes to. The replies of system calls are inputs of the model, so a
-- loop that waits for a reply that is not there is `blocked`.
--   done a   it returned `a`
--   exited   it called `exit` after an error
--   blocked  it waits for a further reply of the system, or repeats for ever
--   fault    it reads or writes outside an object

pub data Proc {ℓ} (A : Type ℓ) : Type ℓ where
  done : A → Proc A
  exited : Proc A
  blocked : Proc A
  fault : Proc A

infixl 5 ◌>>=◌
abbrev pub ◌>>=◌ {ℓ κ} : {A : Type ℓ} {B : Type κ} → Proc A → (A → Proc B) → Proc B
done a >>= f = f a
exited >>= f = exited
blocked >>= f = blocked
fault >>= f = fault
