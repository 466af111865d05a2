-- ===== src/Cluster/Frames.antt =====
-- What an action leaves as it was, and what it leaves behind when it is done: rules for the calls and
-- the writes of the two modules `Calls` and `Writes`.
use fabric_ops.Prelude.{
  ℕ, zero, suc, String, Bool, true, false, List, [], ◌∷◌, Option, none, some, ◌≡◌, refl, sym, ap,
  ◌⊎◌, inl, inr, if◌then◌else◌,
}
use fabric_ops.Prelude.Maps.{Map, lookup, insert}
use fabric_ops.Cluster.Calls.{
  Meta, Secret, Job, Answer, World, conflict, denied, not_found, other_owner, no_password, Outcome,
  failed, done, Action, continue, existing, answered, call, get_secret, write_secret, get_job,
  retry_on_conflict,
}
use fabric_ops.Cluster.Objects.{is_same_owner}
use fabric_ops.Cluster.Writes.{default_retries, update_secret_once, update_secret}

-- The action ends with a value and in a world that `Q` holds of, or with a fault and in one that `E` holds of.
abbrev pub After :
    {A : Type 0} → (A → World → Type 0) → (World → Type 0) → Outcome A × World → Type 0
After Q E (failed e, w) = E w
After Q E (done a, w) = Q a w

pub After-continue :
    {A B : Type 0} (Q : A → World → Type 0) (E : World → Type 0) (R : B → World → Type 0)
    (F : World → Type 0) (f : A → Action B) (r : Outcome A × World)
    → After Q E r
    → ((w : World) → E w → F w)
    → ((a : A) (w : World) → Q a w → After R F (f a w))
    → After R F (continue f r)
After-continue Q E R F f (failed e, w) h weaken next = weaken w h
After-continue Q E R F f (done a, w) h weaken next = next a w h

pub After-weaken :
    {A : Type 0} (Q : A → World → Type 0) (E : World → Type 0) (R : A → World → Type 0)
    (F : World → Type 0) (r : Outcome A × World)
    → After Q E r
    → ((w : World) → E w → F w)
    → ((a : A) (w : World) → Q a w → R a w)
    → After R F r
After-weaken Q E R F (failed e, w) h weaken next = weaken w h
After-weaken Q E R F (done a, w) h weaken next = next a w h

-- The Secrets and the Jobs of a world.
abbrev pub At : Map Secret → Map Job → World → Type 0
At ss js w = (w.secrets ≡ ss) × (w.jobs ≡ js)

module _ (ss : Map Secret) (js : Map Job) where
  answered-At :
      (w : World) → At ss js w → (l : List Answer) → After (λ _. At ss js) (At ss js) (answered w l)
  answered-At w h [] = h
  answered-At w h (Answer.granted ∷ rest) = h
  answered-At w h (Answer.conflicted ∷ rest) = h
  answered-At w h (Answer.refused ∷ rest) = h

  pub call-At : (w : World) → At ss js w → After (λ _. At ss js) (At ss js) (call w)
  unfolding call
  call-At w h = answered-At w h w.answers

  pub get_secret-At :
      (name : String) (w : World)
      → At ss js w
      → After (λ found v. (found ≡ lookup name ss) × At ss js v) (At ss js) (get_secret name w)
  unfolding get_secret
  get_secret-At name w h =
      After-continue (λ _. At ss js) (At ss js) _ (At ss js) _ (call w) (call-At w h) (λ v e. e)
        (λ _ v e. (ap (λ m. lookup name m) e.0, e))

  pub get_job-At :
      (name : String) (w : World)
      → At ss js w
      → After (λ found v. (found ≡ lookup name js) × At ss js v) (At ss js) (get_job name w)
  unfolding get_job
  get_job-At name w h =
      After-continue (λ _. At ss js) (At ss js) _ (At ss js) _ (call w) (call-At w h) (λ v e. e)
        (λ _ v e. (ap (λ m. lookup name m) e.1, e))

  pub write_secret-At :
      (name : String) (s : Secret) (w : World)
      → At ss js w
      → After (λ _. At (insert name s ss) js) (At ss js) (write_secret name s w)
  unfolding write_secret
  write_secret-At name s w h =
      After-continue (λ _. At ss js) (At ss js) _ (At ss js) _ (call w) (call-At w h) (λ v e. e)
        (λ _ v e. (ap (λ m. insert name s m) e.0, e.1))

try_again :
    (P : World → Type 0) (Q : World → Type 0) (rest : Action (Unit {0}))
    → ((w : World) → P w → After (λ _. Q) P (rest w))
    → (tried : Outcome (Unit {0}) × World) → After (λ _. Q) P tried
    → After {A = Unit {0}} (λ _. Q) P (elim tried.0 [ failed conflict ↦ rest tried.1 | _ ↦ tried ])
try_again P Q rest ok (done _, v) p = p
try_again P Q rest ok (failed denied, v) p = p
try_again P Q rest ok (failed not_found, v) p = p
try_again P Q rest ok (failed other_owner, v) p = p
try_again P Q rest ok (failed no_password, v) p = p
try_again P Q rest ok (failed conflict, v) p = ok v p

-- An attempt that fails in a world like the one before it may be made again.
pub retry_on_conflict-After :
    (P : World → Type 0) (Q : World → Type 0) (attempt : Action (Unit {0}))
    → ((w : World) → P w → After (λ _. Q) P (attempt w))
    → (n : ℕ) (w : World) → P w
    → After (λ _. Q) P (retry_on_conflict n attempt w)
unfolding retry_on_conflict
retry_on_conflict-After P Q attempt ok zero w h = h
retry_on_conflict-After P Q attempt ok (suc zero) w h = ok w h
retry_on_conflict-After P Q attempt ok (suc (suc n)) w h =
    try_again P Q (retry_on_conflict (suc n) attempt)
      (retry_on_conflict-After P Q attempt ok (suc n)) (attempt w) (ok w h)

-- What an update of a Secret leaves behind: the Secret that was there, as it was or mutated.
abbrev pub Updated : Map Secret → Map Job → String → (Secret → Secret × Bool) → World → Type 0
Updated ss js name mutate w =
    (old : Secret) × (lookup name ss ≡ some old)
    × (((mutate old).1 ≡ false) × At ss js w ⊎ At (insert name (mutate old).0 ss) js w)

module _ (ss : Map Secret) (js : Map Job) where
  update_found :
      (desired : Meta) (mutate : Secret → Secret × Bool) (old : Secret)
      → lookup desired.name ss ≡ some old
      → (is_same changed : Bool) → changed ≡ (mutate old).1
      → (w : World) → At ss js w
      → After
          (λ _. Updated ss js desired.name mutate)
          (At ss js)
          ((if is_same
              then (if changed then write_secret desired.name (mutate old).0 else λ v. (done tt, v))
              else λ v. (failed other_owner, v))
            w)
  update_found desired mutate old found false changed e w h = h
  update_found desired mutate old found true false e w h = (old, found, inl (sym e, h))
  update_found desired mutate old found true true e w h =
      After-weaken (λ _. At (insert desired.name (mutate old).0 ss) js) (At ss js)
        (λ _. Updated ss js desired.name mutate) (At ss js) _
        (write_secret-At ss js desired.name (mutate old).0 w h) (λ v a. a)
        (λ _ v a. (old, found, inr a))

  update_existing :
      (desired : Meta) (mutate : Secret → Secret × Bool) (found : Option Secret)
      → found ≡ lookup desired.name ss
      → (w : World) → At ss js w
      → After
          (λ _. Updated ss js desired.name mutate)
          (At ss js)
          (continue
            (λ old.
              if is_same_owner old.meta desired
              then (if (mutate old).1 then write_secret desired.name (mutate old).0 else λ v.
                  (done tt, v))
              else λ v. (failed other_owner, v))
            (existing found w))
  update_existing desired mutate none e w h = h
  update_existing desired mutate (some old) e w h =
      update_found desired mutate old (sym e) (is_same_owner old.meta desired) (mutate old).1 refl w
        h

  update_once-Updated :
      (desired : Meta) (mutate : Secret → Secret × Bool) (w : World)
      → At ss js w
      → After
          (λ _. Updated ss js desired.name mutate)
          (At ss js)
          (update_secret_once desired mutate w)
  unfolding update_secret_once
  update_once-Updated desired mutate w h =
      After-continue (λ found v. (found ≡ lookup desired.name ss) × At ss js v) (At ss js)
        (λ _. Updated ss js desired.name mutate) (At ss js) _ _
        (get_secret-At ss js desired.name w h) (λ v a. a)
        (λ found v a. update_existing desired mutate found a.0 v a.1)

  pub update_secret-Updated :
      (desired : Meta) (mutate : Secret → Secret × Bool) (w : World)
      → At ss js w
      → After (λ _. Updated ss js desired.name mutate) (At ss js) (update_secret desired mutate w)
  unfolding update_secret
  update_secret-Updated desired mutate =
      retry_on_conflict-After (At ss js) (Updated ss js desired.name mutate)
        (update_secret_once desired mutate) (update_once-Updated desired mutate) default_retries
