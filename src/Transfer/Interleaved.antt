-- ===== src/Transfer/Interleaved.antt =====
-- The jobs of an upload as `launch::async` runs them (lib/src/upload.cpp): their requests in any order,
-- and one counter `retriesG` for all of them, whose increment is atomic. The request for the upload id
-- has been answered, and that to complete the upload is not yet sent.
pub mod Etags
pub mod Ends
mod Examples
use s3client.Common.{
  ℕ, zero, suc, ◌+◌, ◌*◌, ◌≤◌, ◌<◌, List, [], ◌∷◌, ◌++◌, Bytes, Option, none, some, ◌≡◌,
}
use s3client.Hash.Utility.{◌>>=◌}
use s3client.Transfer.Session.{Part, Config, first_of, last_of, part_count}
use s3client.Transfer.Plan.{job_plan}

-- A job has the etags it pushed and the parts that are left. With `caught` the request for the first of
-- these has failed, and the handler has not yet read the counter. `failed` ends with an exception.
pub data Job : Type 0 where
  working caught : List Bytes → List Part → Job
  failed : Job

-- A step of one job, with the counter before and behind it. `etag_of` is what the service answers.
pub data JobStep (max_retries : ℕ) (etag_of : Part → Bytes) : Job → ℕ → Job → ℕ → Type 0 where
  sent :
      (etags : List Bytes) (p : Part) (todo : List Part) (n : ℕ)
      → JobStep max_retries etag_of
          (working etags (p ∷ todo))
          n
          (working (etags ++ etag_of p ∷ []) todo)
          n
  rejected :
      (etags : List Bytes) (p : Part) (todo : List Part) (n : ℕ)
      → JobStep max_retries etag_of (working etags (p ∷ todo)) n (caught etags (p ∷ todo)) n
  retried :
      (etags : List Bytes) (todo : List Part) (n : ℕ)
      → n < max_retries
      → JobStep max_retries etag_of (caught etags todo) n (working etags todo) (n + 1)
  given_up :
      (etags : List Bytes) (todo : List Part) (n : ℕ)
      → max_retries ≤ n
      → JobStep max_retries etag_of (caught etags todo) n failed (n + 1)

-- A step of one of the jobs.
pub data Step (max_retries : ℕ) (etag_of : Part → Bytes)
    : List Job → ℕ → List Job → ℕ → Type 0 where
  here :
      (j k : Job) (jobs : List Job) (n m : ℕ)
      → JobStep max_retries etag_of j n k m
      → Step max_retries etag_of (j ∷ jobs) n (k ∷ jobs) m
  there :
      (j : Job) (jobs next : List Job) (n m : ℕ)
      → Step max_retries etag_of jobs n next m
      → Step max_retries etag_of (j ∷ jobs) n (j ∷ next) m

-- A number of steps.
pub data Runs (max_retries : ℕ) (etag_of : Part → Bytes)
    : List Job → ℕ → ℕ → List Job → ℕ → Type 0 where
  stay : (jobs : List Job) (n : ℕ) → Runs max_retries etag_of jobs n 0 jobs n
  then_step :
      (jobs next last : List Job) (n m l steps : ℕ)
      → Step max_retries etag_of jobs n next m
      → Runs max_retries etag_of next m steps last l
      → Runs max_retries etag_of jobs n (suc steps) last l

-- The jobs from `i` on, before their first request for a part of the named file. A job with no parts
-- divides by zero, which ends the program however the jobs interleave: none.
unfoldable pub launched : Config → Bytes → ℕ → ℕ → ℕ → ℕ → Option (List Job)
launched cfg file per_job_size file_size zero i = some []
launched cfg file per_job_size file_size (suc left) i = do
  num_parts ← part_count (first_of cfg.parts_per_job i) (last_of cfg.parts_per_job i)
  let first = first_of cfg.parts_per_job i
  rest ← launched cfg file per_job_size file_size left (i + 1)
  some (working [] (job_plan file per_job_size first num_parts file_size i) ∷ rest)

-- `get` of the futures in their order: none if a job has thrown, or has not ended.
unfoldable pub collected : List Job → Option (List Bytes)
collected [] = some []
collected (working etags [] ∷ jobs) = collected jobs >>= λ rest. some (etags ++ rest)
collected (working etags (p ∷ todo) ∷ jobs) = none
collected (caught etags todo ∷ jobs) = none
collected (failed ∷ jobs) = none
