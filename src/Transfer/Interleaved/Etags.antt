-- ===== src/Transfer/Interleaved/Etags.antt =====
-- The etags of an interleaved upload that returns.
use s3client.Common.{
  ℕ, zero, suc, ◌+◌, ◌^◌, ◌<◌, List, [], ◌∷◌, ◌++◌, Bytes, Option, none, some, map, append_assoc,
  append-nil, ◌≡◌, refl, sym, ap, ◌∙◌,
}
use mathlib.Core.List.{map-append}
use s3client.Hash.Utility.{◌>>=◌, through}
use s3client.Transfer.Session.{Part, Config, first_of, last_of, part_count}
use s3client.Transfer.Plan.{job_plan, jobs_plan}
use s3client.Transfer.Interleaved.{
  Job, working, caught, failed, JobStep, sent, rejected, retried, given_up, Step, here, there, Runs,
  stay, then_step, launched, collected,
}

module _ (etag_of : Part → Bytes) where
  -- The etags that a job has and is to get are those of its plan, unless it has failed.
  abbrev JobKeeps : List Part → Job → Type 0
  JobKeeps plan (working etags todo) = etags ++ map etag_of todo ≡ map etag_of plan
  JobKeeps plan (caught etags todo) = etags ++ map etag_of todo ≡ map etag_of plan
  JobKeeps plan failed = Unit

  abbrev Keeps : List (List Part) → List Job → Type 0
  Keeps [] [] = Unit
  Keeps [] (j ∷ jobs) = ⊥
  Keeps (plan ∷ plans) [] = ⊥
  Keeps (plan ∷ plans) (j ∷ jobs) = JobKeeps plan j × Keeps plans jobs

  JobStep-JobKeeps :
      (max_retries : ℕ) (plan : List Part) (j k : Job) (n m : ℕ)
      → JobStep max_retries etag_of j n k m
      → JobKeeps plan j
      → JobKeeps plan k
  JobStep-JobKeeps max_retries plan _ _ _ _ (sent etags p todo n) h =
      append_assoc etags (etag_of p ∷ []) (map etag_of todo) ∙ h
  JobStep-JobKeeps max_retries plan _ _ _ _ (rejected etags p todo n) h = h
  JobStep-JobKeeps max_retries plan _ _ _ _ (retried etags todo n below) h = h
  JobStep-JobKeeps max_retries plan _ _ _ _ (given_up etags todo n above) h = tt

  Step-Keeps :
      (max_retries : ℕ) (plans : List (List Part)) (jobs next : List Job) (n m : ℕ)
      → Step max_retries etag_of jobs n next m
      → Keeps plans jobs
      → Keeps plans next
  Step-Keeps max_retries (plan ∷ plans) _ _ _ _ (here j k jobs n m s) (h, hs) =
      (JobStep-JobKeeps max_retries plan j k n m s h, hs)
  Step-Keeps max_retries (plan ∷ plans) _ _ _ _ (there j jobs next n m s) (h, hs) =
      (h, Step-Keeps max_retries plans jobs next n m s hs)
  Step-Keeps max_retries [] _ _ _ _ (here j k jobs n m s) h = absurd h
  Step-Keeps max_retries [] _ _ _ _ (there j jobs next n m s) h = absurd h

  Runs-Keeps :
      (max_retries : ℕ) (plans : List (List Part)) (jobs last : List Job) (n steps l : ℕ)
      → Runs max_retries etag_of jobs n steps last l
      → Keeps plans jobs
      → Keeps plans last
  Runs-Keeps max_retries plans _ _ _ _ _ (stay jobs n) h = h
  Runs-Keeps max_retries plans _ _ _ _ _ (then_step jobs next last n m l steps s r) h =
      Runs-Keeps max_retries plans next last m steps l r
        (Step-Keeps max_retries plans jobs next n m s h)

  abbrev all_parts : List (List Part) → List Part
  all_parts [] = []
  all_parts (plan ∷ plans) = plan ++ all_parts plans

  behind :
      (done etags : List Bytes) (o : Option (List Bytes))
      → (o >>= λ rest. some (done ++ rest)) ≡ some etags
      → (rest : List Bytes) × (o ≡ some rest) × (etags ≡ done ++ rest)
  behind done etags none e = absurd (cc e)
  behind done etags (some rest) e = (rest, refl, cc e)

  collected-Keeps :
      (plans : List (List Part)) (jobs : List Job) (etags : List Bytes)
      → Keeps plans jobs
      → collected jobs ≡ some etags
      → etags ≡ map etag_of (all_parts plans)
  unfolding collected
  collected-Keeps [] [] etags h e = cc e
  collected-Keeps [] (j ∷ jobs) etags h e = absurd h
  collected-Keeps (plan ∷ plans) [] etags h e = absurd h
  collected-Keeps (plan ∷ plans) (working done [] ∷ jobs) etags (h, hs) e =
      let (rest, f, g) = behind done etags (collected jobs) e in
      let own : done ≡ map etag_of plan = sym (append-nil done) ∙ h in
      g
      ∙ ap (λ (t : List Bytes). t ++ rest) own
      ∙ ap (λ (t : List Bytes). map etag_of plan ++ t) (collected-Keeps plans jobs rest hs f)
      ∙ sym (map-append etag_of plan (all_parts plans))
  collected-Keeps (plan ∷ plans) (working done (p ∷ todo) ∷ jobs) etags h e = absurd (cc e)
  collected-Keeps (plan ∷ plans) (caught done todo ∷ jobs) etags h e = absurd (cc e)
  collected-Keeps (plan ∷ plans) (failed ∷ jobs) etags h e = absurd (cc e)

  -- The jobs that are launched keep plans, which are together the plan of all jobs.
  launched-Keeps :
      (cfg : Config) (file : Bytes) (per_job size left i : ℕ) (jobs : List Job)
      → launched cfg file per_job size left i ≡ some jobs
      → (plans : List (List Part)) × Keeps plans jobs
        × (jobs_plan file per_job cfg.parts_per_job size left i ≡ some (all_parts plans))
  unfolding launched jobs_plan
  launched-Keeps cfg file per_job size zero i jobs e =
      let same : jobs ≡ [] = cc in ([], rw same tt, refl)
  launched-Keeps cfg file per_job size (suc left) i jobs e =
      let first : ℕ = first_of cfg.parts_per_job i in
      let (n, count, behind_count) = through (part_count first (last_of cfg.parts_per_job i)) _ e in
      let (rest, more, whole) =
        through (launched cfg file per_job size left (i + 1)) _ behind_count in
      let (plans, kept, planned) = launched-Keeps cfg file per_job size left (i + 1) rest more in
      let plan = job_plan file per_job first n size i in
      let same : jobs ≡ working [] plan ∷ rest = cc in
      (plan ∷ plans, rw same (refl, kept), rw (count, planned) refl)

-- However the requests of the jobs interleave, whichever of them fail, and however the jobs share the
-- counter of retries: if none of the jobs ends with an exception, the upload is completed with the etags
-- of the parts of all jobs, in the order in which the jobs would have sent them one after another. No job
-- is without parts, and the retries and the jobs together are below 2 ^ 31.
pub collected-jobs_plan :
    (etag_of : Part → Bytes) (cfg : Config) (file : Bytes) (per_job_size file_size steps n : ℕ)
    (start jobs : List Job) (etags : List Bytes)
    → launched cfg file per_job_size file_size cfg.jobs 0 ≡ some start
    → cfg.max_retries + cfg.jobs < 2 ^ 31
    → Runs cfg.max_retries etag_of start 0 steps jobs n
    → collected jobs ≡ some etags
    → (ps : List Part) × (jobs_plan file per_job_size cfg.parts_per_job file_size cfg.jobs 0
        ≡ some ps)
      × (etags ≡ map etag_of ps)
collected-jobs_plan etag_of cfg file per_job_size file_size steps n start jobs etags begun small r
      e =
    let (plans, kept, planned) =
      launched-Keeps etag_of cfg file per_job_size file_size cfg.jobs 0 start begun in
    (
      all_parts etag_of plans,
      planned,
      collected-Keeps etag_of plans jobs etags
          (Runs-Keeps etag_of cfg.max_retries plans start jobs 0 steps n r kept) e,
    )
