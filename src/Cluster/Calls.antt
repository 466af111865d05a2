-- ===== src/Cluster/Calls.antt =====
-- Actions on a namespace: state passing with errors, and the calls of the API server.
use fabric_ops.Prelude.{ℕ, zero, suc, String, Bool, List, [], ◌∷◌, Option, none, some}
use fabric_ops.Prelude.Maps.{Map, lookup, insert}

pub record Meta : Type 0 where
  pub name : String
  pub labels : Map String
  pub annotations : Map String

-- `corev1.Secret`; the bytes of its data are texts.
pub record Secret : Type 0 where
  pub meta : Meta
  pub kind : String
  pub content : Map String

-- `batchv1.JobCondition`, with the test that its status is True.
pub record JobCondition : Type 0 where
  pub kind : String
  pub holds : Bool

-- `batchv1.Job`, as far as it is read.
pub record Job : Type 0 where
  pub meta : Meta
  pub conditions : List JobCondition
  pub succeeded : ℕ

-- What the API server answers to a call: it is done, the object was changed meanwhile, or it is refused.
pub data Answer : Type 0 where
  granted : Answer
  conflicted : Answer
  refused : Answer

pub record World : Type 0 where
  pub secrets : Map Secret
  pub jobs : Map Job
  pub answers : List Answer

pub data Fault : Type 0 where
  conflict : Fault
  denied : Fault
  not_found : Fault
  other_owner : Fault
  no_password : Fault

pub data Outcome {ℓ} (A : Type ℓ) : Type ℓ where
  failed : Fault → Outcome A
  done : A → Outcome A

abbrev pub Action : Type 0 → Type 0
Action A = World → Outcome A × World

abbrev pub give : {A : Type 0} → A → Action A
give a w = (done a, w)

abbrev pub fail : {A : Type 0} → Fault → Action A
fail f w = (failed f, w)

abbrev pub continue : {A B : Type 0} → (A → Action B) → Outcome A × World → Outcome B × World
continue f (failed e, w) = (failed e, w)
continue f (done a, w) = f a w

infixl 5 ◌>>=◌
abbrev pub ◌>>=◌ : {A B : Type 0} → Action A → (A → Action B) → Action B
◌>>=◌ m f w = continue f (m w)

infixl 5 ◌>>◌
abbrev pub ◌>>◌ : {B : Type 0} → Action (Unit {0}) → Action B → Action B
m >> k = m >>= λ unit. k

abbrev pub answered : World → List Answer → Outcome (Unit {0}) × World
answered w [] = (done tt, w)
answered w (granted ∷ rest) = (done tt, record w { answers = rest })
answered w (conflicted ∷ rest) = (failed conflict, record w { answers = rest })
answered w (refused ∷ rest) = (failed denied, record w { answers = rest })

-- One call: the next answer is used up. A server that was given no more answers grants the call.
unfoldable pub call : Action (Unit {0})
call w = answered w w.answers

-- `r.Get`, with `none` for an object that is not there.
unfoldable pub get_secret : String → Action (Option Secret)
get_secret name = do call; λ w. (done (lookup name w.secrets), w)

unfoldable pub get_job : String → Action (Option Job)
get_job name = do call; λ w. (done (lookup name w.jobs), w)

-- `r.Update`, of the object that was read under that name.
unfoldable pub write_secret : String → Secret → Action (Unit {0})
write_secret name s = do call; λ w. (done tt, record w { secrets = insert name s w.secrets })

-- `r.Create`.
unfoldable pub put_secret : Secret → Action (Unit {0})
unfolding write_secret
put_secret s = write_secret s.meta.name s

unfoldable pub put_job : Job → Action (Unit {0})
put_job j = do call; λ w. (done tt, record w { jobs = insert j.meta.name j w.jobs })

-- An object that must be there.
abbrev pub existing : {A : Type 0} → Option A → Action A
existing none = fail not_found
existing (some a) = give a

-- `retry.RetryOnConflict`: the attempts that are left, and what the last one answers.
unfoldable pub retry_on_conflict : ℕ → Action (Unit {0}) → Action (Unit {0})
retry_on_conflict zero attempt w = (failed conflict, w)
retry_on_conflict (suc zero) attempt w = attempt w
retry_on_conflict (suc (suc n)) attempt w =
    let tried = attempt w in
    elim tried.0 [ failed conflict ↦ retry_on_conflict (suc n) attempt tried.1 | _ ↦ tried ]
