-- ===== src/RegisterQueue/Counts.antt =====
-- How often a user stands in the lists of func_helper/register_queue.py, and their lengths.
use sakura_embyboss.Prelude.{
  ℕ, ◌+◌, ◌≤◌, ℤ, Bool, true, false, ◌≡◌, refl, sym, subst, inl, inr, List, [], ◌∷◌, ◌++◌, ◌==◌,
  eq_int, if◌then◌else◌, length, arith, Bool-cases, int_eq_iff,
}
use sakura_embyboss.RegisterQueue.{RegisterJob, is_user_busy, discard, Pick, head, later}

-- How often a user stands in a list.
abbrev pub one : ℤ → ℤ → ℕ
one user u = if u == user then 1 else 0

abbrev pub count : ℤ → List ℤ → ℕ
count user [] = 0
count user (u ∷ us) = one user u + count user us

abbrev pub count_jobs : ℤ → List RegisterJob → ℕ
count_jobs user [] = 0
count_jobs user (j ∷ js) = one user j.user_id + count_jobs user js

abbrev pub count_running : ℤ → List (RegisterJob × Bool) → ℕ
count_running user [] = 0
count_running user ((j, made) ∷ js) = one user j.user_id + count_running user js

-- The running jobs whose account is not counted in `tem`.
abbrev pub uncounted : List (RegisterJob × Bool) → ℕ
uncounted [] = 0
uncounted ((j, made) ∷ js) = (if made then 0 else 1) + uncounted js

pub uncounted_le : (js : List (RegisterJob × Bool)) → uncounted js ≤ length js
uncounted_le [] = omega arith
uncounted_le ((j, true) ∷ js) = omega (arith, uncounted_le js)
uncounted_le ((j, false) ∷ js) = omega (arith, uncounted_le js)

pub length-snoc :
    (js : List RegisterJob) (j : RegisterJob) → length (js ++ (j ∷ [])) ≡ length js + 1
length-snoc [] j = refl
length-snoc (i ∷ js) j = omega (arith, length-snoc js j)

pub count_jobs-snoc :
    (user : ℤ) (js : List RegisterJob) (j : RegisterJob)
    → count_jobs user (js ++ (j ∷ [])) ≡ one user j.user_id + count_jobs user js
count_jobs-snoc user [] j = refl
count_jobs-snoc user (i ∷ js) j = omega (arith, count_jobs-snoc user js j)

pub idle_count : (user : ℤ) (us : List ℤ) → is_user_busy user us ≡ false → count user us ≡ 0
idle_count user [] h = refl
idle_count user (u ∷ us) h = elim (Bool-cases (u == user)) [
  | inl e ↦ cc
  | inr e ↦ rw e (omega (arith, idle_count user us (ground arith)))
]

pub discard-same : (user : ℤ) (us : List ℤ) → count user (discard user us) ≡ 0
unfolding discard
discard-same user [] = refl
discard-same user (u ∷ us) = elim (Bool-cases (u == user)) [
  | inl e ↦ rw e (discard-same user us)
  | inr e ↦
      let other : one user u ≡ 0 = rw e refl in rw e (omega (arith, other, discard-same user us))
]

pub discard-other :
    (user other : ℤ) (us : List ℤ)
    → (user == other) ≡ false
    → count other (discard user us) ≡ count other us
unfolding discard
discard-other user other [] h = refl
discard-other user other (u ∷ us) h = elim (Bool-cases (u == user)) [
  | inl e ↦
      let q : u ≡ user = (int_eq_iff u user).0 e in
      let apart : (u == other) ≡ false = subst (λ (k : ℤ). (k == other) ≡ false) (sym q) h in
      rw (e, apart) (omega (arith, discard-other user other us h))
  | inr e ↦ rw e (omega (arith, discard-other user other us h))
]

pub Pick-length : {A : Type 0} {a : A} {xs ys : List A} → Pick a xs ys → length xs ≡ length ys + 1
Pick-length head = omega arith
Pick-length (later p) = omega (arith, Pick-length p)

pub Pick-count_jobs :
    (user : ℤ) {j : RegisterJob} {xs ys : List RegisterJob}
    → Pick j xs ys
    → count_jobs user xs ≡ one user j.user_id + count_jobs user ys
Pick-count_jobs user head = refl
Pick-count_jobs user (later p) = omega (arith, Pick-count_jobs user p)

pub Pick-count_running :
    (user : ℤ) {j : RegisterJob} {made : Bool} {xs ys : List (RegisterJob × Bool)}
    → Pick (j, made) xs ys
    → count_running user xs ≡ one user j.user_id + count_running user ys
Pick-count_running user head = refl
Pick-count_running user (later p) = omega (arith, Pick-count_running user p)

pub Pick-uncounted :
    {j : RegisterJob} {made : Bool} {xs ys : List (RegisterJob × Bool)}
    → Pick (j, made) xs ys
    → uncounted xs ≡ (if made then 0 else 1) + uncounted ys
Pick-uncounted head = refl
Pick-uncounted (later p) = omega (arith, Pick-uncounted p)
