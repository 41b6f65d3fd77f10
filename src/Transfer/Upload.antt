-- ===== src/Transfer/Upload.antt =====
-- lib/src/upload.cpp. The futures of the jobs are run in the order of the jobs, as `launch::deferred`
-- does; Transfer/Interleaved.antt has the orders of `launch::async`.
pub mod Retries
pub mod Requests
pub mod Coverage
use s3client.Common.{
  ℕ, zero, suc, ◌+◌, ◌-◌, ◌*◌, ◌/◌, ◌%◌, ◌^◌, min, List, [], ◌∷◌, ◌++◌, Bytes, Option, none, some,
  Bool, true, false, ◌==◌, ltb, if◌then◌else◌,
}
use s3client.Common.Word.{u32, u64, sub64}
use s3client.Transfer.Session.{
  Config, Error, Outcome, ok, thrown, Part, Api, Session, M, return, throw, ◌>>=◌, ◌>>◌, call, ask,
  pick_endpoint, reset_retries, first_of, last_of, part_count, or_crash,
}

-- The text of a `char *` ends at its first zero byte. A buffer with no zero byte is read beyond its
-- end: none.
unfoldable pub c_string : Bytes → Option Bytes
c_string [] = none
c_string (c ∷ s) =
    let rest = c_string s in
    if c == 0 then some [] else elim rest [ none ↦ none | some text ↦ some (c ∷ text) ]

-- `cfg.data ? cfg.data : cfg.file`: the common type of the branches is `std::string`, so a buffer is
-- converted to a text, and the call takes the overload for a file of that name.
unfoldable pub source_name : Config → Option Bytes
source_name cfg = elim (cfg.buffer) [ none ↦ some cfg.file | some buffer ↦ c_string buffer ]

-- `!cfg.endpoints.empty()`.
pub has_endpoint : Config → Bool
has_endpoint cfg = elim (cfg.endpoints) [ [] ↦ false | e ∷ rest ↦ true ]

module _ {W : Type 0} (api : Api W) where
  -- The handler of `DoUploadPart`: `retriesG++ < maxRetries` tries again.
  pub retry_or_throw :
      ℕ → (Session W → Outcome Bytes × Session W) → ℕ → Option Bytes × W → Outcome Bytes × Session W
  retry_or_throw max_retries again n (some etag, w) = (ok etag, record { world = w; retries = n })
  retry_or_throw max_retries again n (none, w) =
      let next : Session W = record { world = w; retries = n + 1 } in
      let rest = again next in
      if ltb n max_retries then rest else (thrown Error.request_failed, next)

  pub do_upload_part : ℕ → ℕ → Bytes → Bytes → Part → M W Bytes
  do_upload_part zero max_retries endpoint uid part s = (thrown Error.no_fuel, s)
  do_upload_part (suc fuel) max_retries endpoint uid part s =
      retry_or_throw max_retries (λ t. do_upload_part fuel max_retries endpoint uid part t)
        s.retries (api.upload_file_part s.world endpoint uid part)

  -- The loop of `UploadParts` with its remaining rounds, and the name that each of them computes.
  pub upload_loop :
      Config → Bytes → Bytes → Bytes → ℕ → ℕ → ℕ → ℕ → ℕ → ℕ → List Bytes → M W (List Bytes)
  upload_loop cfg file endpoint uid first_part part_size chunk_size zero i offset etags s =
      (ok etags, s)
  upload_loop cfg file endpoint uid first_part part_size chunk_size (suc left) i offset etags s =
      let size = min part_size (sub64 chunk_size (u64 (i * part_size))) in
      let part : Part = record {
        file = file;
        offset = offset;
        size = size;
        number = u32 (first_part + i);
      } in
      let body : M W (List Bytes) = do
        etag ← do_upload_part (suc cfg.max_retries) cfg.max_retries endpoint uid part
        upload_loop cfg file endpoint uid first_part part_size chunk_size left (i + 1)
            (u64 (offset + size)) (etags ++ etag ∷ [])
      in body s

  pub upload_parts : Config → Bytes → ℕ → ℕ → ℕ → ℕ → ℕ → M W (List Bytes)
  upload_parts cfg uid chunk_size first_part last_part file_size job_id = do
    endpoint ← pick_endpoint api cfg.endpoints
    let offset = u64 (job_id * chunk_size)
    let chunk = min chunk_size (sub64 file_size offset)
    num_parts ← or_crash (part_count first_part last_part)
    let part_size = u64 (chunk + num_parts - 1) / num_parts
    file ← or_crash (source_name cfg)
    upload_loop cfg file endpoint uid first_part part_size chunk num_parts 0 offset []

  -- The futures of the jobs, and the etags in the order of the jobs and of their parts.
  pub upload_jobs : Config → Bytes → ℕ → ℕ → ℕ → ℕ → List Bytes → M W (List Bytes)
  upload_jobs cfg uid per_job_size file_size zero i etags s = (ok etags, s)
  upload_jobs cfg uid per_job_size file_size (suc left) i etags s =
      let first = first_of cfg.parts_per_job i in
      let last = last_of cfg.parts_per_job i in
      let body : M W (List Bytes) = do
        w ← upload_parts cfg uid per_job_size first last file_size i
        upload_jobs cfg uid per_job_size file_size left (i + 1) (etags ++ w)
      in body s

  -- From the request for an upload id on, the same for a file and for a buffer.
  pub upload_all : Config → ℕ → M W Bytes
  upload_all cfg total = do
    endpoint ← pick_endpoint api cfg.endpoints
    uid ← call (λ w. api.create w endpoint)
    let per_job_size = u64 (total + cfg.jobs - 1) / cfg.jobs
    let rounds = upload_jobs cfg uid per_job_size total cfg.jobs 0 []
    etags ← if cfg.jobs == 0 then throw Error.crash else rounds
    call (λ w. api.complete w endpoint uid etags)

  pub upload_file : Config → M W Bytes
  upload_file cfg = do
    reset_retries
    opened ← ask (λ w. api.can_open w cfg.file)
    size ← ask (λ w. api.file_size w cfg.file)
    if opened
        then (if has_endpoint cfg then upload_all cfg size else throw Error.missing_endpoint)
        else throw Error.cannot_open

  pub upload_data : Config → M W Bytes
  upload_data cfg = do
    reset_retries
    if has_endpoint cfg then upload_all cfg cfg.size else throw Error.missing_endpoint

  -- `Upload`. With a buffer the test of `UploadData` for a null pointer cannot fail.
  pub upload : Config → M W Bytes
  upload cfg = elim (cfg.buffer) [
    | some buffer ↦ if cfg.size == 0 then throw Error.zero_size else upload_data cfg
    | none ↦ elim (cfg.file) [ [] ↦ throw Error.empty_file_name | c ∷ rest ↦ upload_file cfg ]
  ]
