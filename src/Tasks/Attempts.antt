-- ===== src/Tasks/Attempts.antt =====
-- The attempts that a task of application/task_service.py has left: max_retries and one more.
use sakura_embyboss.Prelude.{
  ℕ, suc, ◌+◌, ◌-◌, ◌≤◌, String, Bool, true, false, ◌≡◌, refl, sym, inl, inr, some, List, [], ◌∷◌,
  Bool-cases, arith, All, leb, first, replace, ◌∙◌, some_inj, subst,
}
use sakura_embyboss.Database.{
  DateTime, OperationTask, TaskStatus, pending, running, retrying, succeeded, failed, canceled,
}
use sakura_embyboss.TaskRow.{is_running, is_waiting, is_terminal, is_claimable, claimed, failed_by}
use sakura_embyboss.Tasks.Steps.{
  Step, stays, cancels, expires, claims, beats, completes, fails, Rows,
}
use sakura_embyboss.Tasks.Wellformed.{IsWf}

-- The attempts that may still begin, of a task in this state.
abbrev pub left_in : TaskStatus → ℕ → ℕ → ℕ
left_in pending count maximum = suc maximum - count
left_in retrying count maximum = suc maximum - count
left_in running count maximum = maximum - count
left_in succeeded count maximum = 0
left_in failed count maximum = 0
left_in canceled count maximum = 0

abbrev pub attempts_left : OperationTask → ℕ
attempts_left t = left_in t.status t.retry_count t.max_retries

-- Over a whole table.
abbrev pub capacity : List OperationTask → ℕ
capacity [] = 0
capacity (t ∷ ts) = attempts_left t + capacity ts

left_running :
    (s : TaskStatus) (count maximum : ℕ)
    → is_running s ≡ true
    → left_in s count maximum ≡ maximum - count
left_running pending count maximum h = cc
left_running running count maximum h = refl
left_running retrying count maximum h = cc
left_running succeeded count maximum h = cc
left_running failed count maximum h = cc
left_running canceled count maximum h = cc

left_waiting :
    (s : TaskStatus) (count maximum : ℕ)
    → is_waiting s ≡ true
    → left_in s count maximum ≡ suc maximum - count
left_waiting pending count maximum h = refl
left_waiting running count maximum h = cc
left_waiting retrying count maximum h = refl
left_waiting succeeded count maximum h = cc
left_waiting failed count maximum h = cc
left_waiting canceled count maximum h = cc

waiting_counts :
    (t : OperationTask) → is_waiting t.status ≡ true → IsWf t → t.retry_count ≤ t.max_retries
waiting_counts t h w = w.retries_left (go t.status h)
  where
    go : (s : TaskStatus) → is_waiting s ≡ true → is_terminal s ≡ false
    go pending h = refl
    go running h = refl
    go retrying h = refl
    go succeeded h = cc
    go failed h = cc
    go canceled h = cc

pub claimed-left :
    (worker_id : String) (now until : DateTime) (t : OperationTask)
    → is_claimable now t ≡ true
    → IsWf t
    → attempts_left (claimed worker_id now until t) + 1 ≤ attempts_left t
claimed-left worker_id now until t h w =
    let q : is_waiting t.status ≡ true = ground arith in
    rw (left_waiting t.status t.retry_count t.max_retries q) (omega (arith, waiting_counts t q w))

Step-left : {t u : OperationTask} → Step t u → IsWf t → attempts_left u ≤ attempts_left t
unfolding failed_by
Step-left stays w = omega arith
Step-left {t} (cancels now h) w = elim (Bool-cases (is_waiting t.status)) [
  | inl q ↦ rw q (omega arith)
  | inr q ↦ rw q (omega arith)
]
Step-left {t} (expires now h) w =
    let q : is_running t.status ≡ true = ground arith in
    let same = left_running t.status t.retry_count t.max_retries q in
    elim (Bool-cases t.cancel_requested) [
      | inl c ↦ rw c (omega arith)
      | inr c ↦ elim (Bool-cases (leb (t.retry_count + 1) t.max_retries)) [
        | inl b ↦ rw (c, b) (omega (arith, same))
        | inr b ↦ rw (c, b) (omega arith)
      ]
    ]
Step-left {t} (claims worker_id now until h) w =
    omega (arith, claimed-left worker_id now until t h w)
Step-left (beats worker_id now lease h) w = omega arith
Step-left {t} (completes worker_id now value h) w = elim (Bool-cases t.cancel_requested) [
  | inl q ↦ rw q (omega arith)
  | inr q ↦ rw q (omega arith)
]
Step-left {t} (fails worker_id now error h) w =
    let q : is_running t.status ≡ true = ground arith in
    let same = left_running t.status t.retry_count t.max_retries q in
    elim (Bool-cases t.cancel_requested) [
      | inl c ↦ rw c (omega arith)
      | inr c ↦ elim (Bool-cases (leb (t.retry_count + 1) t.max_retries)) [
        | inl b ↦ rw (c, b) (omega (arith, same))
        | inr b ↦ rw (c, b) (omega arith)
      ]
    ]

pub Rows-capacity :
    (ts us : List OperationTask) → Rows Step ts us → All IsWf ts → capacity us ≤ capacity ts
Rows-capacity [] [] r w = omega arith
Rows-capacity [] (u ∷ us) r w = absurd r
Rows-capacity (t ∷ ts) [] r w = absurd r
Rows-capacity (t ∷ ts) (u ∷ us) (step, rest) (w, ws) =
    omega (arith, Step-left step w, Rows-capacity ts us rest ws)

-- A claim uses one attempt up.
pub replace-capacity :
    (p : OperationTask → Bool) (u : OperationTask) (ts : List OperationTask) {t : OperationTask}
    → first p ts ≡ some t
    → All IsWf ts
    → (IsWf t → attempts_left u + 1 ≤ attempts_left t)
    → capacity (replace p u ts) + 1 ≤ capacity ts
unfolding first replace
replace-capacity p u [] e w less = cc
replace-capacity p u (x ∷ xs) {t} e (w, ws) less = elim (Bool-cases (p x)) [
  | inl h ↦
      let here : first p (x ∷ xs) ≡ some x = rw (h, first) in
      let this : x ≡ t = some_inj (sym here ∙ e) in
      let less' : attempts_left u + 1 ≤ attempts_left x =
        subst (λ y. attempts_left u + 1 ≤ attempts_left y) (sym this) (less (subst IsWf this w)) in
      rw h (omega (arith, less'))
  | inr h ↦
      let later : first p (x ∷ xs) ≡ first p xs = rw (h, first) in
      rw h (omega (arith, replace-capacity p u xs (sym later ∙ e) ws less))
]
