-- ===== src/Transfer/Examples.antt =====
-- The theorems on transfers at concrete inputs. The outside worlds of the examples are the list of
-- the parts that were sent, and the number of requests that are still to fail.
use s3client.Common.{
  ℕ, zero, suc, ◌+◌, ◌-◌, ◌*◌, ◌<◌, ◌↔◌, min, List, [], ◌∷◌, ◌++◌, Bytes, Option, some, none, Bool,
  true, false, ◌≡◌, refl, arith,
}
use s3client.Transfer.Session.{Config, ok, Part, Api, Session, part_count}
use s3client.Transfer.Plan.{loop_plan, job_plan, jobs_plan, Tiles, IsRegular, ceil_div}
use s3client.Transfer.Plan.Tiling.{job_plan-Tiles_iff, jobs_plan-Tiles}
use s3client.Transfer.Upload.{upload, upload_all, do_upload_part, source_name, c_string}
use s3client.Transfer.Upload.Retries.{do_upload_part_succeeds}
use s3client.Transfer.Upload.Requests.{Records, Completes, upload_all-Completes}
use s3client.Transfer.Upload.Coverage.{upload_covers, upload_buffer_names, reset}
use s3client.Transfer.Download.Retries as DownloadRetries

abbrev recording : Api (List Part)
recording = record {
  random_index = λ w a b. (a, w);
  can_open = λ w name. true;
  file_size = λ w name. 9;
  create = λ w e. (some (117 ∷ []), w);
  upload_file_part = λ w e uid p. (some (p.number ∷ []), w ++ p ∷ []);
  complete = λ w e uid etags. (some [], w);
  object_size = λ w e. (some 9, w);
  prepare_file = λ w name size. w;
  get_file_part = λ w e p last. (true, w ++ p ∷ []);
}

abbrev etag_of : Part → Bytes
etag_of p = p.number ∷ []

abbrev trace : List Part → List Part
trace w = w

recording-Records : Records recording trace etag_of
recording-Records = record {
  picks = λ w a b. refl;
  creates = λ w e. (117 ∷ [], w, refl, refl);
  uploads = λ w e uid p. (w ++ p ∷ [], refl, refl);
}

-- Each request for a part takes one failure off the number in the world.
abbrev failing_upload : ℕ → Option Bytes × ℕ
failing_upload zero = (some (101 ∷ []), zero)
failing_upload (suc n) = (none, n)

abbrev failing_download : ℕ → Bool × ℕ
failing_download zero = (true, zero)
failing_download (suc n) = (false, n)

abbrev failing : Api ℕ
failing = record {
  random_index = λ w a b. (a, w);
  can_open = λ w name. true;
  file_size = λ w name. 9;
  create = λ w e. (some (117 ∷ []), w);
  upload_file_part = λ w e uid p. failing_upload w;
  complete = λ w e uid etags. (some [], w);
  object_size = λ w e. (some 9, w);
  prepare_file = λ w name size. w;
  get_file_part = λ w e p last. failing_download w;
}

abbrev of_file : Config
of_file = record {
  bucket = 98 ∷ [];
  key = 107 ∷ [];
  file = 102 ∷ [];
  buffer = none;
  size = 0;
  endpoints = (104 ∷ []) ∷ [];
  max_retries = 2;
  jobs = 2;
  parts_per_job = 2;
}

abbrev of_buffer : Config
of_buffer = record of_file { buffer = some (1 ∷ 0 ∷ 2 ∷ []); size = 3 }

-- The parts of nine bytes and of three, for two jobs of two parts each.
abbrev part_at : Bytes → ℕ → ℕ → ℕ → Part
part_at file offset size number = record {
  file = file;
  offset = offset;
  size = size;
  number = number;
}

abbrev nine_bytes : List Part
nine_bytes =
    part_at (102 ∷ []) 0 3 0
    ∷ part_at (102 ∷ []) 3 2 1
    ∷ part_at (102 ∷ []) 5 2 2
    ∷ part_at (102 ∷ []) 7 2 3
    ∷ []

abbrev three_bytes : List Part
three_bytes =
    part_at (1 ∷ []) 0 1 0
    ∷ part_at (1 ∷ []) 1 1 1
    ∷ part_at (1 ∷ []) 2 1 2
    ∷ part_at (1 ∷ []) 3 0 3
    ∷ []

nine_planned : jobs_plan (102 ∷ []) (ceil_div 9 2) 2 9 2 0 ≡ some nine_bytes
unfolding jobs_plan job_plan loop_plan part_count
nine_planned = refl

three_planned : jobs_plan (1 ∷ []) (ceil_div 3 2) 2 3 2 0 ≡ some three_bytes
unfolding jobs_plan job_plan loop_plan part_count
three_planned = refl

buffer_name : c_string (1 ∷ 0 ∷ 2 ∷ []) ≡ some (1 ∷ [])
unfolding c_string
buffer_name = refl

file_name : source_name of_file ≡ some (102 ∷ [])
unfolding source_name
file_name = refl

abbrev no_endpoints : Config
no_endpoints = record of_file { endpoints = [] }

abbrev start : Session (List Part)
start = record { world = []; retries = 5 }

abbrev part : Part
part = record { file = 102 ∷ []; offset = 0; size = 3; number = 0 }

each-IsRegular : (job : ℕ) → job < 2 → IsRegular 2 (min (ceil_div 9 2) (9 - job * ceil_div 9 2))
each-IsRegular job h = omega arith

upload_covers_example :
    (ps : List Part) × Completes recording trace etag_of
      (reset start)
      (upload recording of_file start)
      ps
    × Tiles 0 9 ps
upload_covers_example =
    upload_covers recording trace etag_of of_file start 102 [] (104 ∷ []) [] 9 recording-Records
      refl refl refl refl refl (omega arith) (omega arith) (omega arith) (omega arith) (omega arith)
      each-IsRegular

upload_all-Completes_example :
    Completes recording trace etag_of start (upload_all recording of_file 9 start) nine_bytes
upload_all-Completes_example =
    upload_all-Completes recording trace etag_of of_file 9 start (102 ∷ []) nine_bytes
      recording-Records file_name (omega arith) (omega arith) nine_planned

upload_buffer_names_example :
    Completes recording trace etag_of (reset start) (upload recording of_buffer start) three_bytes
upload_buffer_names_example =
    upload_buffer_names recording trace etag_of of_buffer start (1 ∷ 0 ∷ 2 ∷ []) (104 ∷ []) []
      (1 ∷ []) three_bytes recording-Records refl buffer_name (omega arith) refl (omega arith)
      (omega arith) three_planned

do_upload_part_succeeds_example :
    do_upload_part failing 3 2 [] [] part (record { world = 1; retries = 1 })
    ≡ (ok (101 ∷ []), record { world = 0; retries = 2 })
do_upload_part_succeeds_example =
    do_upload_part_succeeds failing 2 [] [] part 1 1 1 (101 ∷ []) 0 (omega arith) (0, refl, refl)

job_plan-Tiles_iff_example :
    Tiles (1 * 5) (1 * 5 + min 5 (9 - 1 * 5)) (job_plan [] 5 2 2 9 1)
    ↔ IsRegular 2 (min 5 (9 - 1 * 5))
job_plan-Tiles_iff_example =
    job_plan-Tiles_iff [] 5 2 2 9 1 (omega arith) (omega arith) (omega arith)

jobs_plan-Tiles_example :
    (ps : List Part) × (jobs_plan [] (ceil_div 9 2) 2 9 2 0 ≡ some ps) × Tiles 0 9 ps
jobs_plan-Tiles_example =
    jobs_plan-Tiles [] 2 2 9 (omega arith) (omega arith) (omega arith) (omega arith) (omega arith)
      each-IsRegular
