-- ===== src/Cleanup/Next.antt =====
-- When the Jobs that have succeeded are looked at again.
use fabric_ops.Prelude.{
  ℕ, zero, suc, ◌+◌, ◌-◌, ◌≤◌, ◌<◌, String, Bool, true, false, not, ◌||◌, List, [], ◌∷◌, All,
  Option, none, some, ◌≡◌, ◌≢◌, refl, subst, sym, ap, ◌∙◌, ltb, if◌then◌else◌, arith,
}
use fabric_ops.Cluster.Calls.{Meta, Job}
use fabric_ops.Cluster.Objects.{job_succeeded}
use fabric_ops.Controller.Tasks.{Reply, problem, value, Task, pass_on, Gives}
use fabric_ops.Cleanup.{
  FinishedJob, succeeded_job_cleanup_eligible, Disposal, retained, waiting, due, disposal,
  next_cleanup, delete_owned_object, cleanup_jobs,
}

abbrev pub Within : ℕ → ℕ → Type 0
Within limit n = (0 < n) × (n ≤ limit)

-- A Job that is to be deleted later is looked at by then.
abbrev pub IsAwaited : ℕ → ℕ → ℕ → FinishedJob → Type 0
IsAwaited ttl now n f =
    (completion : ℕ)
    → succeeded_job_cleanup_eligible f.job ≡ true
    → job_succeeded f.job ≡ true
    → f.completion_time ≡ some completion
    → now < completion + ttl
    → Within (completion + ttl - now) n

-- A time that was there is not put off, and every Job is awaited.
abbrev pub Awaits : ℕ → ℕ → ℕ → List FinishedJob → ℕ → Type 0
Awaits ttl now next jobs n = (0 < next → Within next n) × All (IsAwaited ttl now n) jobs

waits :
    (marked succeeded : Bool) (now deadline : ℕ)
    → marked ≡ true
    → succeeded ≡ true
    → now < deadline
    → if◌then◌else◌ {A = Disposal}
        (not marked || not succeeded)
        retained
        (if ltb now deadline then waiting (deadline - now) else due)
      ≡ waiting (deadline - now)
waits marked succeeded now deadline h1 h2 h3 = ground arith

disposal-waiting :
    (ttl now completion : ℕ) (f : FinishedJob)
    → succeeded_job_cleanup_eligible f.job ≡ true
    → job_succeeded f.job ≡ true
    → f.completion_time ≡ some completion
    → now < completion + ttl
    → disposal ttl now f ≡ waiting (completion + ttl - now)
unfolding disposal
disposal-waiting ttl now completion f marked succeeded at early =
    ap
      (λ o. elim o as (λ _. Disposal) [
        | none ↦ retained
        | some completion ↦
            if not (succeeded_job_cleanup_eligible f.job) || not (job_succeeded f.job)
            then retained
            else if ltb now (completion + ttl)
            then waiting (completion + ttl - now)
            else due
      ])
      at
    ∙ waits (succeeded_job_cleanup_eligible f.job) (job_succeeded f.job) now (completion + ttl)
        marked succeeded early

next_cleanup-Within :
    (next remaining n : ℕ)
    → 0 < remaining
    → (0 < next_cleanup next remaining → Within (next_cleanup next remaining) n)
    → (0 < next → Within next n) × Within remaining n
unfolding next_cleanup
next_cleanup-Within zero remaining n p h = ((λ q. absurd (omega (arith, q))), h p)
next_cleanup-Within (suc next) remaining n p h = by_test (ltb remaining (suc next)) refl h
  where
    by_test :
        (b : Bool)
        → ltb remaining (suc next) ≡ b
        → (0 < (if b then remaining else suc next) → Within (if b then remaining else suc next) n)
        → (0 < suc next → Within (suc next) n) × Within remaining n
    by_test true e k = let w = k p in ((λ q. ground (arith, w, e)), w)
    by_test false e k = let w = k (omega arith) in ((λ q. w), ground (arith, w, e))

-- A time to wait is not 0.
abbrev IsPositive : Disposal → Type 0
IsPositive retained = Unit
IsPositive (waiting remaining) = 0 < remaining
IsPositive due = Unit

disposal-IsPositive :
    (ttl now : ℕ) (f : FinishedJob) (d : Disposal) → disposal ttl now f ≡ d → IsPositive d
unfolding disposal
disposal-IsPositive ttl now f d e = subst IsPositive e (by_time f.completion_time)
  where
    by_tests :
        (skipped early : Bool) (deadline : ℕ)
        → ltb now deadline ≡ early
        → IsPositive (
            if◌then◌else◌ {A = Disposal} skipped retained
              (if early then waiting (deadline - now) else due))
    by_tests true early deadline e = tt
    by_tests false true deadline e = ground (arith, e)
    by_tests false false deadline e = tt

    by_time :
        (o : Option ℕ)
        → IsPositive (elim o as (λ _. Disposal) [
          | none ↦ retained
          | some completion ↦
              if not (succeeded_job_cleanup_eligible f.job) || not (job_succeeded f.job)
              then retained
              else if ltb now (completion + ttl)
              then waiting (completion + ttl - now)
              else due
        ])
    by_time none = tt
    by_time (some completion) =
        by_tests (not (succeeded_job_cleanup_eligible f.job) || not (job_succeeded f.job))
          (ltb now (completion + ttl)) (completion + ttl) refl

other-IsAwaited :
    (ttl now n : ℕ) (f : FinishedJob)
    → ((remaining : ℕ) → disposal ttl now f ≢ waiting remaining)
    → IsAwaited ttl now n f
other-IsAwaited ttl now n f other completion marked succeeded at early = absurd (
    other (completion + ttl - now)
      (disposal-waiting ttl now completion f marked succeeded at early))

remaining_of : Disposal → ℕ
remaining_of retained = 0
remaining_of (waiting remaining) = remaining
remaining_of due = 0

waiting-IsAwaited :
    (ttl now n remaining : ℕ) (f : FinishedJob)
    → disposal ttl now f ≡ waiting remaining
    → Within remaining n
    → IsAwaited ttl now n f
unfolding remaining_of
waiting-IsAwaited ttl now n remaining f e h completion marked succeeded at early =
    subst (λ r. Within r n)
      (ap remaining_of (sym e ∙ disposal-waiting ttl now completion f marked succeeded at early)) h

module _ {W : Type 0} where
  weaken :
      {A : Type 0} (P Q : A → Type 0) (r : Reply A × W)
      → ((a : A) → P a → Q a)
      → Gives P r
      → Gives Q r
  weaken P Q (problem text, w) f h = tt
  weaken P Q (value a, w) f h = f a h

  after_reply :
      {A B : Type 0} (P : B → Type 0) (next : A → Task W B) (r : Reply A × W)
      → ((a : A) (w : W) → Gives P (next a w))
      → Gives P (pass_on next r)
  after_reply P next (problem text, w) h = tt
  after_reply P next (value a, w) h = h a w

module _ {W : Type 0} (list_jobs : String → Task W (List FinishedJob))
    (delete_job : String → Job → Task W (Unit {0})) where
  -- Where the loop over the Jobs of a namespace ends without an error, it returns a time
  -- that is not 0 and is not after that at which any Job of the list that is marked, has
  -- succeeded and is not old enough is to be deleted, nor after the time that it was given,
  -- if there is one.
  pub cleanup_jobs-Awaits :
      (ttl now : ℕ) (namespace : String) (expected : Meta) (next : ℕ) (jobs : List FinishedJob)
      (w : W)
      → Gives
          (Awaits ttl now next jobs)
          (cleanup_jobs list_jobs delete_job ttl now namespace expected next jobs w)
  unfolding cleanup_jobs
  cleanup_jobs-Awaits ttl now namespace expected next [] w = ((λ p. (p, omega arith)), tt)
  cleanup_jobs-Awaits ttl now namespace expected next (f ∷ rest) w =
      by_disposal (λ later. cleanup_jobs-Awaits ttl now namespace expected later rest)
        (disposal ttl now f) refl
    where
      by_disposal :
          ((later : ℕ) (w1 : W)
            → Gives
                (Awaits ttl now later rest)
                (cleanup_jobs list_jobs delete_job ttl now namespace expected later rest w1))
          → (d : Disposal) → disposal ttl now f ≡ d
          → Gives (Awaits ttl now next (f ∷ rest)) (elim d as (λ _. Reply ℕ × W) [
            | retained ↦ cleanup_jobs list_jobs delete_job ttl now namespace expected next rest w
            | waiting remaining ↦
                cleanup_jobs list_jobs delete_job ttl now namespace expected
                  (next_cleanup next remaining)
                  rest
                  w
            | due ↦
                pass_on
                  (λ done. cleanup_jobs list_jobs delete_job ttl now namespace expected next rest)
                  (delete_owned_object list_jobs delete_job namespace f.job
                    (record expected { name = f.job.meta.name })
                    w)
          ])
      by_disposal later retained e =
          weaken (Awaits ttl now next rest) (Awaits ttl now next (f ∷ rest))
            (cleanup_jobs list_jobs delete_job ttl now namespace expected next rest w)
            (λ n h. (h.0, (other-IsAwaited ttl now n f (λ r q. absurd (cc)), h.1))) (later next w)
      by_disposal later (waiting remaining) e =
          weaken (Awaits ttl now (next_cleanup next remaining) rest)
            (Awaits ttl now next (f ∷ rest))
            (cleanup_jobs list_jobs delete_job ttl now namespace expected
              (next_cleanup next remaining) rest w)
            (λ n h.
              let sooner =
                next_cleanup-Within next remaining n
                  (disposal-IsPositive ttl now f (waiting remaining) e) h.0 in
              (sooner.0, (waiting-IsAwaited ttl now n remaining f e sooner.1, h.1)))
            (later (next_cleanup next remaining) w)
      by_disposal later due e =
          after_reply (Awaits ttl now next (f ∷ rest))
            (λ done. cleanup_jobs list_jobs delete_job ttl now namespace expected next rest)
            (delete_owned_object list_jobs delete_job namespace f.job
              (record expected { name = f.job.meta.name }) w)
            (λ done w1.
              weaken (Awaits ttl now next rest) (Awaits ttl now next (f ∷ rest))
                (cleanup_jobs list_jobs delete_job ttl now namespace expected next rest w1)
                (λ n h. (h.0, (other-IsAwaited ttl now n f (λ r q. absurd (cc)), h.1)))
                (later next w1))
