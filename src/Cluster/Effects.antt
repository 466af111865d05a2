-- ===== src/Cluster/Effects.antt =====
-- What the writes of the module `Writes` leave behind: the Secret of that name, and every other one as it was.
use fabric_ops.Prelude.{
  String, Bool, true, false, Option, none, some, ◌≡◌, refl, sym, ap, ◌∙◌, ◌⊎◌, inl, inr, ◌==◌,
  if◌then◌else◌, arith, eq_iff, eq_refl,
}
use fabric_ops.Prelude.Maps.{Map, lookup, insert, lookup-insert}
use fabric_ops.Cluster.Calls.{
  Secret, Job, World, failed, done, Action, continue, existing, put_secret, get_job, put_job,
  retry_on_conflict, call, other_owner,
}
use fabric_ops.Cluster.Objects.{is_same_owner}
use fabric_ops.Cluster.Frames.{
  At, After, After-continue, After-weaken, get_secret-At, get_job-At, write_secret-At, Updated,
  update_secret-Updated, call-At, retry_on_conflict-After,
}
use fabric_ops.Cluster.Writes.{
  update_secret, secret_data_equal, merged_secret, ensured_secret, ensure_secret, upserted_secret,
  upsert_secret_data, update_job_once, ensure_job, ensured_job, default_retries,
}

-- Every Secret but the one of that name is as it was.
abbrev pub Others : Map Secret → String → World → Type 0
Others ss name w = (n : String) → (name == n) ≡ false → lookup n w.secrets ≡ lookup n ss

-- Two contents that the operator takes for the same.
abbrev pub SameData : Map String → Map String → Type 0
SameData a b = (a ≡ b) ⊎ (secret_data_equal a b ≡ true)

-- There is a Secret of that name, and `problem` finds none in it.
abbrev pub Good : (Secret → String) → String → World → Type 0
Good problem name w = (s : Secret) × (lookup name w.secrets ≡ some s) × (problem s ≡ "")

-- The Secret of that name has the content.
abbrev pub Holds : String → Map String → World → Type 0
Holds name content w = (s : Secret) × (lookup name w.secrets ≡ some s) × SameData s.content content

abbrev pub Stored : Map Secret → Map Job → Secret → World → Type 0
Stored ss js desired w =
    (w.jobs ≡ js) × Others ss desired.meta.name w × Holds desired.meta.name desired.content w

abbrev pub Kept : Map Secret → Map Job → String → World → Type 0
Kept ss js name w = (w.jobs ≡ js) × Others ss name w

lookup-own : {V : Type 0} (n : String) (v : V) (m : Map V) → lookup n (insert n v m) ≡ some v
lookup-own n v m = ground (arith, lookup-insert n n v m, eq_refl n)

lookup-other :
    {V : Type 0} (n k : String) (v : V) (m : Map V)
    → (n == k) ≡ false
    → lookup k (insert n v m) ≡ lookup k m
lookup-other n k v m h = ground (arith, lookup-insert n k v m)

module _ (ss : Map Secret) (js : Map Job) where
  inserted-Kept :
      (name : String) (s : Secret) (w : World) → At (insert name s ss) js w → Kept ss js name w
  inserted-Kept name s w h = (h.1, λ n e. ap (λ m. lookup n m) h.0 ∙ lookup-other name n s ss e)

  inserted-Holds :
      (name : String) (content : Map String) (s : Secret) (w : World)
      → At (insert name s ss) js w
      → SameData s.content content
      → Holds name content w
  inserted-Holds name content s w h same =
      (s, ap (λ m. lookup name m) h.0 ∙ lookup-own name s ss, same)

  put_secret-At :
      (s : Secret) (w : World)
      → At ss js w
      → After (λ _. At (insert s.meta.name s ss) js) (At ss js) (put_secret s w)
  unfolding put_secret
  put_secret-At s w h = write_secret-At ss js s.meta.name s w h

  put_secret-Stored :
      (s : Secret) (w : World)
      → At ss js w
      → After (λ _. Stored ss js s) (At ss js) (put_secret s w)
  put_secret-Stored s w h =
      After-weaken (λ _. At (insert s.meta.name s ss) js) (At ss js) (λ _. Stored ss js s)
        (At ss js) _ (put_secret-At s w h) (λ v a. a)
        (λ _ v a.
          let kept = inserted-Kept s.meta.name s v a in
          (kept.0, kept.1, inserted-Holds s.meta.name s.content s v a (inl refl)))

  At-Others : (name : String) (w : World) → At ss js w → Kept ss js name w
  At-Others name w h = (h.1, λ n e. ap (λ m. lookup n m) h.0)

  upserted-SameData :
      (desired old : Secret) → SameData (upserted_secret desired old).0.content desired.content
  unfolding upserted_secret
  upserted-SameData desired old = by_test (secret_data_equal old.content desired.content) refl
    where
      by_test :
          (b : Bool)
          → secret_data_equal old.content desired.content ≡ b
          → SameData (if b then old.content else desired.content) desired.content
      by_test true e = inr e
      by_test false e = inl refl

  upserted-unchanged :
      (desired old : Secret)
      → (upserted_secret desired old).1 ≡ false
      → secret_data_equal old.content desired.content ≡ true
  unfolding upserted_secret
  upserted-unchanged desired old h = ground arith

  upserted-Stored :
      (desired : Secret) (w : World)
      → Updated ss js desired.meta.name (upserted_secret desired) w
      → Stored ss js desired w
  upserted-Stored desired w (old, found, inl same) =
      let kept = At-Others desired.meta.name w same.1 in
      (
        kept.0,
        kept.1,
        (
          old,
          ap (λ m. lookup desired.meta.name m) same.1.0 ∙ found,
          inr (upserted-unchanged desired old same.0),
        ),
      )
  upserted-Stored desired w (old, found, inr written) =
      let kept = inserted-Kept desired.meta.name (upserted_secret desired old).0 w written in
      (
        kept.0,
        kept.1,
        inserted-Holds desired.meta.name desired.content (upserted_secret desired old).0 w written
            (upserted-SameData desired old),
      )

  pub upsert_secret_data-Stored :
      (desired : Secret) (w : World)
      → At ss js w
      → After (λ _. Stored ss js desired) (At ss js) (upsert_secret_data desired w)
  unfolding upsert_secret_data
  upsert_secret_data-Stored desired w h =
      After-continue (λ found v. (found ≡ lookup desired.meta.name ss) × At ss js v) (At ss js)
        (λ _. Stored ss js desired) (At ss js) _ _ (get_secret-At ss js desired.meta.name w h)
        (λ v a. a) (λ found v a. by_presence found v a.1)
    where
      by_presence :
          (found : Option Secret) (v : World)
          → At ss js v
          → After
              (λ _. Stored ss js desired)
              (At ss js)
              ((elim found as (λ _. Action (Unit {0})) [
                | none ↦ put_secret desired
                | some _ ↦ update_secret desired.meta (upserted_secret desired)
              ])
                v)
      by_presence none v a = put_secret-Stored desired v a
      by_presence (some s) v a =
          After-weaken (λ _. Updated ss js desired.meta.name (upserted_secret desired)) (At ss js)
            (λ _. Stored ss js desired) (At ss js) _
            (update_secret-Updated ss js desired.meta (upserted_secret desired) v a) (λ u b. b)
            (λ _ u b. upserted-Stored desired u b)

  Updated-Kept :
      (name : String) (mutate : Secret → Secret × Bool) (w : World)
      → Updated ss js name mutate w
      → Kept ss js name w
  Updated-Kept name mutate w (old, found, inl same) = At-Others name w same.1
  Updated-Kept name mutate w (old, found, inr written) = inserted-Kept name (mutate old).0 w written

  -- `problem` reads the content of a Secret only, and finds none in what is wanted.
  module _ (desired : Secret) (problem : Secret → String) (good : problem desired ≡ "")
      (on_content : (s t : Secret) → s.content ≡ t.content → problem s ≡ problem t) where
    by_test :
        (merged : Secret × Bool) (b : Bool)
        → (problem merged.0 == "") ≡ b
        → (old : Secret) → merged.0.content ≡ old.content
        → let new =
            if b
            then merged
            else (record merged.0 { content = desired.content; kind = desired.kind }, true) in
          (problem new.0 ≡ "") × (new.1 ≡ false → problem old ≡ "")
    by_test merged true e old c =
        let fine = (eq_iff (problem merged.0) "").0 e in
        (fine, λ _. on_content old merged.0 (sym c) ∙ fine)
    by_test merged false e old c = (
      on_content (record merged.0 { content = desired.content; kind = desired.kind }) desired refl
          ∙ good,
      λ h. ground (arith, h),
    )

    ensured_lem :
        (old : Secret)
        → let new = ensured_secret desired problem old in
          (problem new.0 ≡ "") × (new.1 ≡ false → problem old ≡ "")
    unfolding ensured_secret merged_secret
    ensured_lem old = by_test (merged_secret desired old) _ refl old refl

    ensured-Good :
        (w : World)
        → Updated ss js desired.meta.name (ensured_secret desired problem) w
        → Good problem desired.meta.name w
    ensured-Good w (old, found, inl same) =
        (old, ap (λ m. lookup desired.meta.name m) same.1.0 ∙ found, (ensured_lem old).1 same.0)
    ensured-Good w (old, found, inr written) = (
      (ensured_secret desired problem old).0,
      ap (λ m. lookup desired.meta.name m) written.0 ∙ lookup-own desired.meta.name _ ss,
      (ensured_lem old).0,
    )

    pub ensure_secret-Good :
        (w : World)
        → At ss js w
        → After
            (λ _ v. Kept ss js desired.meta.name v × Good problem desired.meta.name v)
            (At ss js)
            (ensure_secret desired problem w)
    unfolding ensure_secret
    ensure_secret-Good w h =
        After-continue (λ found v. (found ≡ lookup desired.meta.name ss) × At ss js v) (At ss js)
          (λ _ v. Kept ss js desired.meta.name v × Good problem desired.meta.name v) (At ss js) _ _
          (get_secret-At ss js desired.meta.name w h) (λ v a. a)
          (λ found v a. by_presence found v a.1)
      where
        by_presence :
            (found : Option Secret) (v : World)
            → At ss js v
            → After
                (λ _ u. Kept ss js desired.meta.name u × Good problem desired.meta.name u)
                (At ss js)
                ((elim found as (λ _. Action (Unit {0})) [
                  | none ↦ put_secret desired
                  | some _ ↦ update_secret desired.meta (ensured_secret desired problem)
                ])
                  v)
        by_presence none v a =
            After-weaken (λ _. At (insert desired.meta.name desired ss) js) (At ss js) _ (At ss js)
              _ (put_secret-At desired v a) (λ u b. b)
              (λ _ u b. (
                inserted-Kept desired.meta.name desired u b,
                (
                  desired,
                  ap (λ m. lookup desired.meta.name m) b.0
                      ∙ lookup-own desired.meta.name desired ss,
                  good,
                ),
              ))
        by_presence (some s) v a =
            After-weaken (λ _. Updated ss js desired.meta.name (ensured_secret desired problem))
              (At ss js) _ (At ss js) _
              (update_secret-Updated ss js desired.meta (ensured_secret desired problem) v a)
              (λ u b. b)
              (λ _ u b. (
                Updated-Kept desired.meta.name (ensured_secret desired problem) u b,
                ensured-Good u b,
              ))

-- The Secrets of a world, whatever its Jobs.
abbrev pub Secrets : Map Secret → World → Type 0
Secrets ss w = w.secrets ≡ ss

module _ (ss : Map Secret) where
  put_job-Secrets :
      (j : Job) (w : World) → Secrets ss w → After (λ _. Secrets ss) (Secrets ss) (put_job j w)
  unfolding put_job
  put_job-Secrets j w h =
      After-continue (λ _. At ss w.jobs) (At ss w.jobs) (λ _. Secrets ss) (Secrets ss) _ (call w)
        (call-At ss w.jobs w (h, refl)) (λ v e. e.0) (λ _ v e. e.0)

  read_job-Secrets :
      {B : Type 0} (name : String) (f : Option Job → Action B) (w : World)
      → Secrets ss w
      → ((found : Option Job) (v : World)
          → Secrets ss v
          → After (λ _. Secrets ss) (Secrets ss) (f found v))
      → After (λ _. Secrets ss) (Secrets ss) (continue f (get_job name w))
  read_job-Secrets name f w h next =
      After-continue (λ found v. (found ≡ lookup name w.jobs) × At ss w.jobs v) (At ss w.jobs)
        (λ _. Secrets ss) (Secrets ss) f _ (get_job-At ss w.jobs name w (h, refl)) (λ v e. e.0)
        (λ found v e. next found v e.1.0)

  update_job_once-Secrets :
      (desired : Job) (w : World)
      → Secrets ss w
      → After (λ _. Secrets ss) (Secrets ss) (update_job_once desired w)
  unfolding update_job_once
  update_job_once-Secrets desired w h = read_job-Secrets desired.meta.name _ w h by_presence
    where
      write :
          (old new : Job) (is_same changed : Bool) (v : World)
          → Secrets ss v
          → After
              (λ _. Secrets ss)
              (Secrets ss)
              ((if is_same then (if changed then put_job new else λ u. (done tt, u)) else λ u.
                  (failed other_owner, u))
                v)
      write old new false changed v e = e
      write old new true false v e = e
      write old new true true v e = put_job-Secrets new v e

      by_presence :
          (found : Option Job) (v : World)
          → Secrets ss v
          → After
              (λ _. Secrets ss)
              (Secrets ss)
              (continue
                (λ old.
                  if is_same_owner old.meta desired.meta
                  then (if (ensured_job desired old).1
                      then put_job (ensured_job desired old).0
                      else λ u. (done tt, u))
                  else λ u. (failed other_owner, u))
                (existing found v))
      by_presence none v e = e
      by_presence (some old) v e =
          write old (ensured_job desired old).0 (is_same_owner old.meta desired.meta)
            (ensured_job desired old).1 v e

  pub ensure_job-Secrets :
      (desired : Job) (w : World)
      → Secrets ss w
      → After (λ _. Secrets ss) (Secrets ss) (ensure_job desired w)
  unfolding ensure_job
  ensure_job-Secrets desired w h = read_job-Secrets desired.meta.name _ w h by_presence
    where
      by_presence :
          (found : Option Job) (v : World)
          → Secrets ss v
          → After
              (λ _. Secrets ss)
              (Secrets ss)
              ((elim found as (λ _. Action (Unit {0})) [
                | none ↦ put_job desired
                | some _ ↦ retry_on_conflict default_retries (update_job_once desired)
              ])
                v)
      by_presence none v e = put_job-Secrets desired v e
      by_presence (some old) v e =
          retry_on_conflict-After (Secrets ss) (Secrets ss) (update_job_once desired)
            (update_job_once-Secrets desired) default_retries v e
