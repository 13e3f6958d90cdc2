-- ===== src/Store/Jobs/Claims.antt =====
-- The continuation of an assessment job into onboarding is claimed at most once.
use agent_it.Base.{
  ℕ, ◌≤◌, String, Bool, true, false, List, [], ◌∷◌, ◌++◌, ◌≡◌, refl, sym, ap, ◌∙◌, subst, arith,
  and_true, any, map, if◌then◌else◌, str_eq, eq_iff, All, Bool-cases, inl, inr, is_empty_text,
}
use agent_it.Store.Jobs.{
  Job, Jobs, continue_onboard, is_step, on_job, assessed, progressed, is_claimable, unclaimable,
  claim_continue_onboard, is_orphan, interrupted, Call, assess, progress, claim, reap, call,
  is_grant, grants,
}

-- No step of the job is reported under the name of the flag.
abbrev pub KeepsFlag : String → Call → Type 0
KeepsFlag id (progress i status step error) = i ≡ id → str_eq step continue_onboard ≡ false
KeepsFlag id _ = Unit

any-map :
    {A : Type 0} (p : A → Bool) (f : A → A) (xs : List A)
    → ((x : A) → p x ≡ false → p (f x) ≡ false)
    → any p xs ≡ false
    → any p (map f xs) ≡ false
any-map p f [] keeps h = refl
any-map p f (x ∷ xs) keeps h = ground (arith, keeps x, any-map p f xs keeps)

any-map_all :
    {A : Type 0} (p : A → Bool) (f : A → A) (xs : List A)
    → ((x : A) → p (f x) ≡ false)
    → any p (map f xs) ≡ false
any-map_all p f [] clears = refl
any-map_all p f (x ∷ xs) clears = rw (clears x, any-map_all p f xs clears)

is_step-append :
    (s t : String) (steps : List String)
    → str_eq t s ≡ false
    → is_step s steps ≡ false
    → is_step s (steps ++ (t ∷ [])) ≡ false
is_step-append s t [] e h = rw e
is_step-append s t (x ∷ steps) e h = ground (arith, is_step-append s t steps e)

progressed-unclaimed :
    (id status step error : String) (j : Job)
    → str_eq step continue_onboard ≡ false
    → is_claimable id j ≡ false
    → is_claimable id (progressed status step error j) ≡ false
progressed-unclaimed id status step error j e h = elim (Bool-cases (is_empty_text step)) [
  | inl empty ↦ rw empty h
  | inr named ↦ elim (Bool-cases (is_step step j.steps_completed)) [
    | inl done ↦ rw (named, done) h
    | inr new ↦
        rw (named, new) (ground (arith, is_step-append continue_onboard step j.steps_completed e))
  ]
]

not_its-claimable : (id : String) (j : Job) → str_eq j.id id ≡ false → is_claimable id j ≡ false
not_its-claimable id j h = rw h

on_job-unclaimed :
    (f : Job → Job) (i id : String) (j : Job)
    → (f j).id ≡ j.id
    → (i ≡ id → is_claimable id j ≡ false → is_claimable id (f j) ≡ false)
    → is_claimable id j ≡ false
    → is_claimable id (on_job f i j) ≡ false
on_job-unclaimed f i id j e keeps h = elim (Bool-cases (str_eq j.id i)) [
  | inl same ↦ rw same (elim (Bool-cases (str_eq j.id id)) [
    | inl its ↦ keeps (sym ((eq_iff j.id i).0 same) ∙ (eq_iff j.id id).0 its) h
    | inr other ↦ not_its-claimable id (f j) (ap (λ (k : String). str_eq k id) e ∙ other)
  ])
  | inr other ↦ rw other h
]

progressed-id : (status step error : String) (j : Job) → (progressed status step error j).id ≡ j.id
progressed-id status step error j = elim (Bool-cases (is_empty_text step)) [
  | inl empty ↦ rw empty refl
  | inr named ↦ rw named refl
]

claimed-unclaimable :
    (i id : String) (j : Job)
    → is_claimable id j ≡ false
    → is_claimable id (if is_claimable i j then unclaimable j else j) ≡ false
claimed-unclaimable i id j h = elim (Bool-cases (is_claimable i j)) [
  | inl yes_ ↦ rw yes_ (ground arith)
  | inr no_ ↦ rw no_ h
]

claimed_self :
    (id : String) (j : Job)
    → is_claimable id (if is_claimable id j then unclaimable j else j) ≡ false
claimed_self id j = elim (Bool-cases (is_claimable id j)) [
  | inl granted ↦ rw granted (ground arith)
  | inr refused ↦ rw refused refused
]

reaped-unclaimed :
    (max_age now : ℕ) (id : String) (j : Job)
    → is_claimable id j ≡ false
    → is_claimable id
        (if is_orphan max_age now j then record j { status = "failed"; error = interrupted } else j)
      ≡ false
reaped-unclaimed max_age now id j h = elim (Bool-cases (is_orphan max_age now j)) [
  | inl orphan ↦ rw orphan h
  | inr alive ↦ rw alive h
]

-- A statement that keeps the flag off leaves no row of `id` claimable.
call-unclaimed :
    (id : String) (c : Call) (jobs : Jobs)
    → KeepsFlag id c
    → any (is_claimable id) jobs ≡ false
    → any (is_claimable id) (call c jobs) ≡ false
unfolding call
call-unclaimed id (assess i status step assessment_id) jobs k h =
    let f = assessed status step assessment_id in
    any-map (is_claimable id) (on_job f i) jobs (λ j. on_job-unclaimed f i id j refl (λ e u. u)) h
call-unclaimed id (progress i status step error) jobs k h =
    let f = progressed status step error in
    any-map (is_claimable id) (on_job f i) jobs
      (λ j.
        on_job-unclaimed f i id j (progressed-id status step error j)
          (λ e. progressed-unclaimed id status step error j (k e)))
      h
call-unclaimed id (claim i) jobs k h = any-map (is_claimable id) _ jobs (claimed-unclaimable i id) h
call-unclaimed id (reap max_age now) jobs k h =
    any-map (is_claimable id) _ jobs (reaped-unclaimed max_age now id) h

unclaimed-is_grant :
    (id : String) (c : Call) (jobs : Jobs)
    → any (is_claimable id) jobs ≡ false
    → is_grant id c jobs ≡ false
unfolding is_grant
unclaimed-is_grant id (assess i status step assessment_id) jobs h = refl
unclaimed-is_grant id (progress i status step error) jobs h = refl
unclaimed-is_grant id (reap max_age now) jobs h = refl
unclaimed-is_grant id (claim i) jobs h = elim (Bool-cases (str_eq i id)) [
  | inl same ↦ rw (same, ap (λ (k : String). any (is_claimable k) jobs) ((eq_iff i id).0 same)) h
  | inr other ↦ rw other refl
]

grant-unclaimed :
    (id : String) (c : Call) (jobs : Jobs)
    → is_grant id c jobs ≡ true
    → any (is_claimable id) (call c jobs) ≡ false
unfolding is_grant call
grant-unclaimed id (assess i status step assessment_id) jobs h = absurd (cc)
grant-unclaimed id (progress i status step error) jobs h = absurd (cc)
grant-unclaimed id (reap max_age now) jobs h = absurd (cc)
grant-unclaimed id (claim i) jobs h =
    let e = (eq_iff i id).0 ((and_true (str_eq i id) (any (is_claimable i) jobs) h).0) in
    subst (λ (k : String). any (is_claimable id) (claim_continue_onboard k jobs).1 ≡ false) (sym e)
      (any-map_all (is_claimable id) _ jobs (claimed_self id))

unclaimed-grants :
    (id : String) (calls : List Call) (jobs : Jobs)
    → All (KeepsFlag id) calls
    → any (is_claimable id) jobs ≡ false
    → grants id calls jobs ≡ 0
unfolding grants
unclaimed-grants id [] jobs keeps h = refl
unclaimed-grants id (c ∷ calls) jobs (k, keeps) h = rw (
  unclaimed-is_grant id c jobs h,
  unclaimed-grants id calls (call c jobs) keeps (call-unclaimed id c jobs k h),
)

-- However the polls of one job's progress interleave with the updates of any job and with the
-- sweep, at most one claim of its continuation into onboarding is granted, unless a step of that
-- job is itself reported as "continue_onboard".
pub grants-le-one :
    (id : String) (calls : List Call) (jobs : Jobs)
    → All (KeepsFlag id) calls
    → grants id calls jobs ≤ 1
unfolding grants
grants-le-one id [] jobs keeps = omega arith
grants-le-one id (c ∷ calls) jobs (k, keeps) = elim (Bool-cases (is_grant id c jobs)) [
  | inl granted ↦
      rw
        (granted, unclaimed-grants id calls (call c jobs) keeps (grant-unclaimed id c jobs granted))
        (omega arith)
  | inr other ↦ rw other (omega (arith, grants-le-one id calls (call c jobs) keeps))
]
