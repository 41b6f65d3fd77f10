-- ===== src/Transfer/Interleaved/Ends.antt =====
-- Every interleaved upload ends: its steps are bounded, and jobs that have not ended can take one.
use s3client.Common.{
  ℕ, zero, suc, ◌+◌, ◌-◌, ◌*◌, ◌^◌, ◌≤◌, ◌<◌, ltb, List, [], ◌∷◌, Bytes, some, Bool, true, false,
  ◌&&◌, length, ◌≡◌, refl, ap, ◌∙◌, arith, Bool-cases,
}
use mathlib.Core.Logic.{◌⊎◌, inl, inr}
use s3client.Transfer.Session.{Part, Config, first_of, last_of, part_count}
use s3client.Hash.Utility.{through}
use s3client.Transfer.Plan.{loop_plan, job_plan}
use s3client.Transfer.Plan.Counts.{part_count_bound}
use s3client.Transfer.Interleaved.{
  Job, working, caught, failed, JobStep, sent, rejected, retried, given_up, Step, here, there, Runs,
  stay, then_step, launched,
}

-- The steps that a job still has, if it is not to try again.
steps_left : Job → ℕ
steps_left (working etags todo) = length todo + 2
steps_left (caught etags todo) = length todo + 1
steps_left failed = 0

all_steps_left : List Job → ℕ
all_steps_left [] = 0
all_steps_left (j ∷ jobs) = steps_left j + all_steps_left jobs

JobStep-bound :
    (max_retries : ℕ) (etag_of : Part → Bytes) (j k : Job) (n m : ℕ)
    → JobStep max_retries etag_of j n k m
    → steps_left k + 2 * (max_retries - m) < steps_left j + 2 * (max_retries - n)
unfolding steps_left
JobStep-bound max_retries etag_of _ _ _ _ (sent etags p todo n) = omega arith
JobStep-bound max_retries etag_of _ _ _ _ (rejected etags p todo n) = omega arith
JobStep-bound max_retries etag_of _ _ _ _ (retried etags todo n below) = omega arith
JobStep-bound max_retries etag_of _ _ _ _ (given_up etags todo n above) = omega arith

Step-bound :
    (max_retries : ℕ) (etag_of : Part → Bytes) (jobs next : List Job) (n m : ℕ)
    → Step max_retries etag_of jobs n next m
    → all_steps_left next + 2 * (max_retries - m) < all_steps_left jobs + 2 * (max_retries - n)
unfolding all_steps_left
Step-bound max_retries etag_of _ _ _ _ (here j k jobs n m s) =
    omega (arith, JobStep-bound max_retries etag_of j k n m s)
Step-bound max_retries etag_of _ _ _ _ (there j jobs next n m s) =
    omega (arith, Step-bound max_retries etag_of jobs next n m s)

Runs-bound :
    (max_retries : ℕ) (etag_of : Part → Bytes) (jobs last : List Job) (n steps l : ℕ)
    → Runs max_retries etag_of jobs n steps last l
    → steps + (all_steps_left last + 2 * (max_retries - l))
      ≤ all_steps_left jobs + 2 * (max_retries - n)
Runs-bound max_retries etag_of _ _ _ _ _ (stay jobs n) = omega arith
Runs-bound max_retries etag_of _ _ _ _ _ (then_step jobs next last n m l steps s r) = omega (
  arith,
  Step-bound max_retries etag_of jobs next n m s,
  Runs-bound max_retries etag_of next last m steps l r,
)

-- All jobs have sent their parts or have failed.
abbrev pub has_ended : Job → Bool
has_ended (working etags []) = true
has_ended (working etags (p ∷ todo)) = false
has_ended (caught etags todo) = false
has_ended failed = true

unfoldable pub all_ended : List Job → Bool
all_ended [] = true
all_ended (j ∷ jobs) = has_ended j && all_ended jobs

-- A step that can be made.
abbrev pub CanStep : ℕ → (Part → Bytes) → List Job → ℕ → Type 0
CanStep max_retries etag_of jobs n =
    (next : List Job) × (m : ℕ) × Step max_retries etag_of jobs n next m

job_can_step :
    (max_retries : ℕ) (etag_of : Part → Bytes) (j : Job) (n : ℕ)
    → has_ended j ≡ false
    → (k : Job) × (m : ℕ) × JobStep max_retries etag_of j n k m
job_can_step max_retries etag_of (working etags []) n h = absurd (cc h)
job_can_step max_retries etag_of (working etags (p ∷ todo)) n h = (_, _, sent etags p todo n)
job_can_step max_retries etag_of (caught etags todo) n h = elim (Bool-cases (ltb n max_retries)) [
  | inl e ↦ (_, _, retried etags todo n (ground arith))
  | inr e ↦ (_, _, given_up etags todo n (ground arith))
]
job_can_step max_retries etag_of failed n h = absurd (cc h)

can_step :
    (max_retries : ℕ) (etag_of : Part → Bytes) (jobs : List Job) (n : ℕ)
    → all_ended jobs ≡ false
    → CanStep max_retries etag_of jobs n
unfolding all_ended
can_step max_retries etag_of [] n h = absurd (cc h)
can_step max_retries etag_of (j ∷ jobs) n h = elim (Bool-cases (has_ended j)) [
  | inr e ↦ let (k, m, s) = job_can_step max_retries etag_of j n e in (_, _, here j k jobs n m s)
  | inl e ↦
      let (next, m, s) = can_step max_retries etag_of jobs n (ground arith) in
      (_, _, there j jobs next n m s)
]

-- The counter runs beyond the maximum by no more than one for each job that gave up.
failure : Job → ℕ
failure (working etags todo) = 0
failure (caught etags todo) = 0
failure failed = 1

failures : List Job → ℕ
failures [] = 0
failures (j ∷ jobs) = failure j + failures jobs

JobStep-counter :
    (max_retries : ℕ) (etag_of : Part → Bytes) (j k : Job) (n m f : ℕ)
    → JobStep max_retries etag_of j n k m
    → n ≤ max_retries + (failure j + f)
    → m ≤ max_retries + (failure k + f)
unfolding failure
JobStep-counter max_retries etag_of _ _ _ _ f (sent etags p todo n) h = h
JobStep-counter max_retries etag_of _ _ _ _ f (rejected etags p todo n) h = h
JobStep-counter max_retries etag_of _ _ _ _ f (retried etags todo n below) h = omega arith
JobStep-counter max_retries etag_of _ _ _ _ f (given_up etags todo n above) h = omega arith

Step-counter :
    (max_retries : ℕ) (etag_of : Part → Bytes) (jobs next : List Job) (n m f : ℕ)
    → Step max_retries etag_of jobs n next m
    → n ≤ max_retries + (failures jobs + f)
    → (m ≤ max_retries + (failures next + f)) × (length next ≡ length jobs)
unfolding failures
Step-counter max_retries etag_of _ _ _ _ f (here j k jobs n m s) h =
    let bound = JobStep-counter max_retries etag_of j k n m (failures jobs + f) s (omega arith) in
    (omega arith, refl)
Step-counter max_retries etag_of _ _ _ _ f (there j jobs next n m s) h =
    let (bound, size) =
      Step-counter max_retries etag_of jobs next n m (failure j + f) s (omega arith) in
    (omega arith, ap suc size)

Runs-counter :
    (max_retries : ℕ) (etag_of : Part → Bytes) (jobs last : List Job) (n steps l : ℕ)
    → Runs max_retries etag_of jobs n steps last l
    → n ≤ max_retries + failures jobs
    → (l ≤ max_retries + failures last) × (length last ≡ length jobs)
Runs-counter max_retries etag_of _ _ _ _ _ (stay jobs n) h = (h, refl)
Runs-counter max_retries etag_of _ _ _ _ _ (then_step jobs next last n m l steps s r) h =
    let (bound, size) = Step-counter max_retries etag_of jobs next n m 0 s (omega arith) in
    let (end, same) = Runs-counter max_retries etag_of next last m steps l r (omega arith) in
    (end, same ∙ size)

failures_bound : (jobs : List Job) → failures jobs ≤ length jobs
unfolding failures failure
failures_bound [] = omega arith
failures_bound (working etags todo ∷ jobs) = omega (arith, failures_bound jobs)
failures_bound (caught etags todo ∷ jobs) = omega (arith, failures_bound jobs)
failures_bound (failed ∷ jobs) = omega (arith, failures_bound jobs)

length-loop_plan :
    (file : Bytes) (first_part part_size chunk_size left i offset : ℕ)
    → length (loop_plan file first_part part_size chunk_size left i offset) ≡ left
unfolding loop_plan
length-loop_plan file first_part part_size chunk_size zero i offset = refl
length-loop_plan file first_part part_size chunk_size (suc left) i offset =
    ap suc (length-loop_plan file first_part part_size chunk_size left (i + 1) _)

launched_sizes :
    (cfg : Config) (file : Bytes) (per_job size left i : ℕ) (jobs : List Job)
    → launched cfg file per_job size left i ≡ some jobs
    → (all_steps_left jobs ≤ left * (cfg.parts_per_job + 2))
      × (length jobs ≡ left)
      × (failures jobs ≡ 0)
unfolding launched all_steps_left steps_left failures failure job_plan
launched_sizes cfg file per_job size zero i jobs e =
    let same : jobs ≡ [] = cc in rw same (grind arith, refl, refl)
launched_sizes cfg file per_job size (suc left) i jobs e =
    let first : ℕ = first_of cfg.parts_per_job i in
    let (n, count, behind) = through (part_count first (last_of cfg.parts_per_job i)) _ e in
    let (rest, more, whole) = through (launched cfg file per_job size left (i + 1)) _ behind in
    let (steps, same_length, none_failed) =
      launched_sizes cfg file per_job size left (i + 1) rest more in
    let fewer = part_count_bound cfg.parts_per_job i n count in
    let same : jobs ≡ working [] (job_plan file per_job first n size i) ∷ rest = cc in
    rw same (rw length-loop_plan (grind arith), ap suc same_length, omega arith)

-- However the requests of the jobs interleave and whichever of them fail, the jobs make no more steps than
-- two for each job, one for each part and two for each retry; the counter of retries does not run beyond
-- its maximum by more than the number of jobs; and unless every job has sent its parts or has thrown, one
-- of them can make a step. So every upload ends, and no job waits for another. No job is without parts,
-- and the retries and the jobs together are below 2 ^ 31.
pub interleaved_ends :
    (etag_of : Part → Bytes) (cfg : Config) (file : Bytes) (per_job_size file_size steps n : ℕ)
    (start jobs : List Job)
    → launched cfg file per_job_size file_size cfg.jobs 0 ≡ some start
    → cfg.max_retries + cfg.jobs < 2 ^ 31
    → Runs cfg.max_retries etag_of start 0 steps jobs n
    → (steps ≤ cfg.jobs * (cfg.parts_per_job + 2) + 2 * cfg.max_retries)
      × (n ≤ cfg.max_retries + cfg.jobs)
      × ((all_ended jobs ≡ true) ⊎ CanStep cfg.max_retries etag_of jobs n)
interleaved_ends etag_of cfg file per_job_size file_size steps n start jobs begun small r =
    let (all_steps, size, none_failed) =
      launched_sizes cfg file per_job_size file_size cfg.jobs 0 start begun in
    let (counter, same) =
      Runs-counter cfg.max_retries etag_of start jobs 0 steps n r (omega arith) in
    (
      omega (arith, Runs-bound cfg.max_retries etag_of start jobs 0 steps n r),
      omega (arith, failures_bound jobs),
      elim (Bool-cases (all_ended jobs)) [
        | inl e ↦ inl e
        | inr e ↦ inr (can_step cfg.max_retries etag_of jobs n e)
      ],
    )
