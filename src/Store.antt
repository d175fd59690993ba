-- ===== src/Store.antt =====
-- Database work: a repository call reads and changes the database and may fail.
-- `exec_tx` is `Store.ExecTx` of internal/repository/db/store.go. Concurrent transactions are not
-- modelled: the services lock the rows that they decide on (`SELECT … FOR UPDATE`). Nor are lost
-- connections: a query fails for want of a row, or since a constraint of the schema forbids it.
pub mod Table
use hrbackend.Prelude.{
  Bool, true, false, Option, none, some, ◌≡◌, refl, arith, inl, inr, ap, subst, sym,
}
use hrbackend.Prelude.Results.{Result, ok, err, Result-cases}

-- An action on a database S; what was written before a failure stays written, until a rollback.
abbrev pub Action : Type 0 → Type 0 → Type 0 → Type 0
Action S E A = S → Result E A × S

module _ {S E A : Type 0} where
  abbrev pub pure : A → Action S E A
  pure a s = (ok a, s)

  abbrev pub raise : E → Action S E A
  raise e s = (err e, s)

  abbrev pub gets : (S → A) → Action S E A
  gets f s = (ok (f s), s)

  -- A query for one row, and the error for `ErrNoRows`.
  abbrev pub one_row : Option A → E → Action S E A
  one_row none e s = (err e, s)
  one_row (some a) e s = (ok a, s)

infixl 5 ◌>>=◌ ◌>>◌
abbrev pub ◌>>=◌ : {S E A B : Type 0} → Action S E A → (A → Action S E B) → Action S E B
◌>>=◌ m f s = let (r, s') = m s in elim r [ ok a ↦ f a s' | err e ↦ (err e, s') ]

abbrev pub ◌>>◌ : {S E A B : Type 0} → Action S E A → Action S E B → Action S E B
m >> k = m >>= λ _. k

-- `if test { return err }`.
abbrev pub raise_if : {S E : Type 0} → Bool → E → Action S E (Unit {0})
raise_if true e s = (err e, s)
raise_if false e s = (ok tt, s)

-- The outcome of a transaction that began in s: an error rolls everything back.
abbrev pub finish : {S E A : Type 0} → S → Result E A × S → Result E A × S
finish s (ok a, s') = (ok a, s')
finish s (err e, s') = (err e, s)

unfoldable pub exec_tx : {S E A : Type 0} → Action S E A → Action S E A
exec_tx m s = finish s (m s)

-- A failure leaves the database as it was.
abbrev pub IsAtomic : {S E A : Type 0} → Action S E A → Type 0
IsAtomic {S = S} {E = E} m = (s : S) (e : E) → (m s).0 ≡ err e → (m s).1 ≡ s

-- What holds of an atomic action's outcome: it holds of the state before, or after a success.
pub atomic_cases :
    {S E A : Type 0} (P : S → Type 0) (m : Action S E A) (s : S)
    → IsAtomic m
    → P s
    → ((a : A) → m s ≡ (ok a, (m s).1) → P (m s).1)
    → P (m s).1
atomic_cases P m s atomic same step = elim (Result-cases (m s).0) [
  | inl (e, h) ↦ subst P (sym (atomic s e h)) same
  | inr (a, h) ↦ step a (ap (λ x. (x, (m s).1)) h)
]
