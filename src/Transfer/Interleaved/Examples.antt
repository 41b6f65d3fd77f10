-- ===== src/Transfer/Interleaved/Examples.antt =====
-- The theorems on interleavings at two jobs of one part: the request of the first job fails once, between
-- the requests of the second and its own next one.
use s3client.Common.{
  ℕ, ◌+◌, ◌*◌, ◌≤◌, List, [], ◌∷◌, Bytes, none, some, true, map, ◌≡◌, refl, arith,
}
use mathlib.Core.Logic.{◌⊎◌}
use s3client.Transfer.Session.{Part, Config, part_count}
use s3client.Transfer.Plan.{loop_plan, job_plan, jobs_plan}
use s3client.Transfer.Interleaved.{
  Job, working, sent, rejected, retried, here, there, Runs, stay, then_step, launched, collected,
}
use s3client.Transfer.Interleaved.Etags.{collected-jobs_plan}
use s3client.Transfer.Interleaved.Ends.{all_ended, CanStep, interleaved_ends}

abbrev two_jobs : Config
two_jobs = record {
  bucket = [];
  key = [];
  file = 102 ∷ [];
  buffer = none;
  size = 4;
  endpoints = (101 ∷ []) ∷ [];
  max_retries = 1;
  jobs = 2;
  parts_per_job = 1;
}

abbrev etag_of : Part → Bytes
etag_of p = p.number ∷ []

abbrev part : ℕ → Part
part i = record { file = 102 ∷ []; offset = 2 * i; size = 2; number = i }

abbrev both_sent : List Job
both_sent = working ((0 ∷ []) ∷ []) [] ∷ working ((1 ∷ []) ∷ []) [] ∷ []

abbrev begin : List Job
begin = working [] (part 0 ∷ []) ∷ working [] (part 1 ∷ []) ∷ []

begun : launched two_jobs (102 ∷ []) 2 4 2 0 ≡ some begin
unfolding launched job_plan loop_plan part_count
begun = refl

one_failure : Runs 1 etag_of begin 0 4 both_sent 1
one_failure =
    then_step _ _ _ _ _ _ _
      (there (working [] (part 0 ∷ [])) _ _ _ _ (here _ _ _ _ _ (sent [] (part 1) [] 0)))
      (then_step _ _ _ _ _ _ _ (here _ _ _ _ _ (rejected [] (part 0) [] 0)) (
        then_step _ _ _ _ _ _ _ (here _ _ _ _ _ (retried [] (part 0 ∷ []) 0 (omega arith)))
          (then_step _ _ _ _ _ _ _ (here _ _ _ _ _ (sent [] (part 0) [] 1)) (stay both_sent 1))))

both_collected : collected both_sent ≡ some ((0 ∷ []) ∷ (1 ∷ []) ∷ [])
unfolding collected
both_collected = refl

collected-jobs_plan_example :
    (ps : List Part) × (jobs_plan (102 ∷ []) 2 two_jobs.parts_per_job 4 two_jobs.jobs 0 ≡ some ps)
    × ((0 ∷ []) ∷ (1 ∷ []) ∷ [] ≡ map etag_of ps)
collected-jobs_plan_example =
    collected-jobs_plan etag_of two_jobs (102 ∷ []) 2 4 4 1 begin both_sent _ begun (omega arith)
      one_failure both_collected

interleaved_ends_example :
    (4 ≤ two_jobs.jobs * (two_jobs.parts_per_job + 2) + 2 * two_jobs.max_retries)
    × (1 ≤ two_jobs.max_retries + two_jobs.jobs)
    × ((all_ended both_sent ≡ true) ⊎ CanStep two_jobs.max_retries etag_of both_sent 1)
interleaved_ends_example =
    interleaved_ends etag_of two_jobs (102 ∷ []) 2 4 4 1 begin both_sent begun (omega arith)
      one_failure
