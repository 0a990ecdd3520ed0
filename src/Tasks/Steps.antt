-- ===== src/Tasks/Steps.antt =====
-- The life of one task as a step relation, and the steps that each call makes on the rows.
use sakura_embyboss.Prelude.{
  ℕ, String, Bool, true, false, ◌≡◌, sym, subst, ◌∙◌, inl, inr, some, List, [], ◌∷◌, map, eq_string,
  first, replace, first_holds, Bool-cases, some_inj,
}
use text.Mathlib.TextEquality.{eq_iff}
use sakura_embyboss.Database.{DateTime, Fields, OperationTask}
use sakura_embyboss.TaskRow.{
  is_terminal, is_retryable, canceled_by_user, reset, is_expired, recovered, is_claimable, claimed,
  is_held_by, beaten, completed, failed_by,
}
use sakura_embyboss.Tasks.{has_id}

-- What a call may do to a row. `retried` is the only step that an administrator's retry makes.
pub data Step (t : OperationTask) : OperationTask → Type 0 where
  stays : Step t t
  cancels : (now : DateTime) → is_terminal t.status ≡ false → Step t (canceled_by_user now t)
  expires : (now : DateTime) → is_expired now t ≡ true → Step t (recovered now t)
  claims :
      (worker_id : String) (now until : DateTime)
      → is_claimable now t ≡ true
      → Step t (claimed worker_id now until t)
  beats :
      (worker_id : String) (now : DateTime) (lease : ℕ)
      → is_held_by worker_id t ≡ true
      → Step t (beaten now lease t)
  completes :
      (worker_id : String) (now : DateTime) (value : Fields)
      → is_held_by worker_id t ≡ true
      → Step t (completed now value t)
  fails :
      (worker_id : String) (now : DateTime) (error : String)
      → is_held_by worker_id t ≡ true
      → Step t (failed_by now error t)

-- The step of a retry.
pub data Retry (t : OperationTask) : OperationTask → Type 0 where
  kept : Retry t t
  retried : (now : DateTime) → is_retryable t.status ≡ true → Retry t (reset now t)

-- Two tables with the same rows, each moved by the relation.
abbrev pub Rows :
    (OperationTask → OperationTask → Type 0) → List OperationTask → List OperationTask → Type 0
Rows R [] [] = Unit
Rows R [] (u ∷ us) = ⊥
Rows R (t ∷ ts) [] = ⊥
Rows R (t ∷ ts) (u ∷ us) = R t u × Rows R ts us

module _ (R : OperationTask → OperationTask → Type 0) (same : (t : OperationTask) → R t t) where
  pub Rows-refl : (ts : List OperationTask) → Rows R ts ts
  Rows-refl [] = tt
  Rows-refl (t ∷ ts) = (same t, Rows-refl ts)

  pub Rows-replace :
      (p : OperationTask → Bool) (u : OperationTask) (ts : List OperationTask) {t : OperationTask}
      → first p ts ≡ some t
      → R t u
      → Rows R ts (replace p u ts)
  unfolding first replace
  Rows-replace p u [] e r = cc
  Rows-replace p u (x ∷ xs) {t} e r = elim (Bool-cases (p x)) [
    | inl h ↦
        let here : first p (x ∷ xs) ≡ some x = rw (h, first) in
        let this : x ≡ t = some_inj (sym here ∙ e) in
        rw h (subst (λ y. R y u) (sym this) r, Rows-refl xs)
    | inr h ↦
        let later : first p (x ∷ xs) ≡ first p xs = rw (h, first) in
        rw h (same x, Rows-replace p u xs (sym later ∙ e) r)
  ]

  pub save-Rows :
      (id : String) (t u : OperationTask) (ts : List OperationTask)
      → first (has_id id) ts ≡ some t
      → u.id ≡ t.id
      → R t u
      → Rows R ts (replace (has_id u.id) u ts)
  save-Rows id t u ts e same_id r =
      let found : t.id ≡ id = (eq_iff t.id id).0 (first_holds (has_id id) ts e) in
      subst (λ k. Rows R ts (replace (has_id k) u ts)) (sym (same_id ∙ found))
        (Rows-replace (has_id id) u ts e r)

  pub Rows-map :
      (f : OperationTask → OperationTask) (ts : List OperationTask)
      → ((t : OperationTask) → R t (f t))
      → Rows R ts (map f ts)
  Rows-map f [] step = tt
  Rows-map f (t ∷ ts) step = (step t, Rows-map f ts step)
