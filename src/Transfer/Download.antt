-- ===== src/Transfer/Download.antt =====
-- lib/src/download.cpp. As for uploads, the futures of the jobs run in the order of the jobs.
pub mod Retries
pub mod Outcomes
use s3client.Common.{
  ℕ, zero, suc, ◌+◌, ◌-◌, ◌*◌, ◌/◌, ◌%◌, ◌^◌, min, List, [], ◌∷◌, Bytes, Option, none, some, Bool,
  true, false, ◌==◌, ltb, if◌then◌else◌, get_or,
}
use s3client.Common.Word.{u32, u64, sub64}
use s3client.Transfer.Session.{
  Config, Error, Outcome, ok, thrown, Part, Api, Session, M, throw, ◌>>=◌, ◌>>◌, call,
  pick_endpoint, reset_retries, first_of, last_of, part_count, or_crash,
}
use s3client.Transfer.Upload.{source_name}

module _ {W : Type 0} (api : Api W) where
  -- The handler of `DownloadPart`: `retriesG++ > maxRetries` throws.
  pub throw_or_retry :
      ℕ
      → (Session W → Outcome (Unit {0}) × Session W)
      → ℕ
      → Bool × W
      → Outcome (Unit {0}) × Session W
  throw_or_retry max_retries again n (true, w) = (ok tt, record { world = w; retries = n })
  throw_or_retry max_retries again n (false, w) =
      let next : Session W = record { world = w; retries = n + 1 } in
      let rest = again next in
      if ltb max_retries n then (thrown Error.request_failed, next) else rest

  -- The bytes asked for are `offset` to `offset + partSize - 1`, in `size_t`.
  pub download_part : ℕ → ℕ → Bytes → Part → M W (Unit {0})
  download_part zero max_retries endpoint part s = (thrown Error.no_fuel, s)
  download_part (suc fuel) max_retries endpoint part s =
      throw_or_retry max_retries (λ t. download_part fuel max_retries endpoint part t) s.retries
        (api.get_file_part s.world endpoint part (sub64 (u64 (part.offset + part.size)) 1))

  -- The loop of `DownloadParts` with its remaining rounds, and the name that each of them computes.
  pub download_loop : Config → Bytes → Bytes → ℕ → ℕ → ℕ → ℕ → ℕ → ℕ → M W (Unit {0})
  download_loop cfg file endpoint first_part part_size chunk_size zero i offset s = (ok tt, s)
  download_loop cfg file endpoint first_part part_size chunk_size (suc left) i offset s =
      let size = min part_size (sub64 chunk_size (u64 (i * part_size))) in
      let part : Part = record {
        file = file;
        offset = offset;
        size = size;
        number = u32 (first_part + i);
      } in
      let body : M W (Unit {0}) = do
        download_part (suc (suc cfg.max_retries)) cfg.max_retries endpoint part
        download_loop cfg file endpoint first_part part_size chunk_size left (i + 1)
            (u64 (offset + size))
      in body s

  pub download_parts : Config → ℕ → ℕ → ℕ → ℕ → ℕ → M W (Unit {0})
  download_parts cfg chunk_size first_part last_part object_size job_id =
      let offset = u64 (job_id * chunk_size) in
      let chunk = min chunk_size (sub64 object_size offset) in
      do
        num_parts ← or_crash (part_count first_part last_part)
        let part_size = u64 (chunk + num_parts - 1) / num_parts
        endpoint ← pick_endpoint api cfg.endpoints
        file ← or_crash (source_name cfg)
        download_loop cfg file endpoint first_part part_size chunk num_parts 0 offset

  -- `wait` on the future of a job: the exception that the job throws stays in the future.
  pub waited : Outcome (Unit {0}) × Session W → Outcome (Unit {0}) × Session W
  waited (thrown Error.request_failed, s) = (ok tt, s)
  waited r = r

  pub download_jobs : Config → ℕ → ℕ → ℕ → ℕ → M W (Unit {0})
  download_jobs cfg per_job_size object_size zero i s = (ok tt, s)
  download_jobs cfg per_job_size object_size (suc left) i s =
      let first = first_of cfg.parts_per_job i in
      let last = last_of cfg.parts_per_job i in
      let body : M W (Unit {0}) = do
        λ t. waited (download_parts cfg per_job_size first last object_size i t)
        download_jobs cfg per_job_size object_size left (i + 1)
      in body s

  pub download_all : Config → ℕ → M W (Unit {0})
  download_all cfg total =
      let per_job_size = u64 (total + cfg.jobs - 1) / cfg.jobs in
      let rounds : M W (Unit {0}) = download_jobs cfg per_job_size total cfg.jobs 0 in
      if cfg.jobs == 0 then throw Error.crash else rounds

  -- The size of the object, and an output file of that size: a byte is written at `fileSize - 1`.
  pub download_file : Config → M W (Unit {0})
  download_file cfg = do
    reset_retries
    elim (cfg.endpoints) [
      | [] ↦ throw Error.missing_endpoint
      | first ∷ rest ↦ do
        size ← call (λ w. api.object_size w first)
        λ s. (ok tt, record s { world = api.prepare_file s.world cfg.file size })
        download_all cfg size
    ]

  pub download_data : Config → M W (Unit {0})
  download_data cfg = do
    reset_retries
    elim (cfg.endpoints) [
      | [] ↦ throw Error.missing_endpoint
      | first ∷ rest ↦ download_all cfg cfg.size
    ]

  -- `Download`. With a buffer the test of `DownloadData` for a null pointer cannot fail.
  pub download : Config → M W (Unit {0})
  download cfg = elim (cfg.buffer) [
    | some buffer ↦ download_data cfg
    | none ↦ elim (cfg.file) [ [] ↦ throw Error.empty_file_name | c ∷ rest ↦ download_file cfg ]
  ]
