-- ===== src/Exec.antt =====
-- Methods that change the database and may raise (repositories/unit_of_work.py). What was written
-- before a raise is still in the session, so the state comes back beside the error too; the unit
-- of work then rolls it back.
use mathlib.Core.Path.{◌≡◌}
use native.Mathlib.Omega.{arith}

-- An exception, by its class.
pub data Error : Type 0 where
  value_error type_error overflow_error integrity_error runtime_error : Error

pub data Result (A : Type 0) : Type 0 where
  ok : A → Result A
  err : Error → Result A

abbrev pub Exec : Type 0 → Type 0 → Type 0
Exec S A = S → Result A × S

module _ {S A : Type 0} where
  abbrev pub pure : A → Exec S A
  pure a s = (ok a, s)

  abbrev pub raise : Error → Exec S A
  raise e s = (err e, s)

  abbrev pub gets : (S → A) → Exec S A
  gets f s = (ok (f s), s)

infixl 5 ◌>>=◌ ◌>>◌
abbrev pub ◌>>=◌ : {S A B : Type 0} → Exec S A → (A → Exec S B) → Exec S B
◌>>=◌ m f s = let (r, s') = m s in elim r [ ok a ↦ f a s' | err e ↦ (err e, s') ]

abbrev pub ◌>>◌ : {S A B : Type 0} → Exec S A → Exec S B → Exec S B
m >> k = m >>= λ _. k

abbrev pub modify : {S : Type 0} → (S → S) → Exec S (Unit {0})
modify f s = (ok tt, f s)

-- `SqlAlchemyUnitOfWork.__exit__`: a commit without an exception, else a rollback.
abbrev pub settle : {S A : Type 0} → Result A → S → S → Result A × S
settle (ok a) before after = (ok a, after)
settle (err e) before after = (err e, before)

-- `with self._uow_factory() as uow:`
abbrev pub transaction : {S A : Type 0} → Exec S A → Exec S A
transaction m s = let (r, s') = m s in settle r s s'

-- A run whose first step is known.
module _ {S A B : Type 0} (m : Exec S A) (f : A → Exec S B) (s s' : S) where
  pub bind_ok : (a : A) → m s ≡ (ok a, s') → (m >>= f) s ≡ f a s'
  bind_ok a e = ground arith

  pub bind_err : (x : Error) → m s ≡ (err x, s') → (m >>= f) s ≡ (err x, s')
  bind_err x e = ground arith

pub ok_inj : {A : Type 0} {a b : A} → ok a ≡ ok b → a ≡ b
ok_inj h = cc
