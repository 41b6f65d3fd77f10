-- ===== src/Transfer/Upload/Coverage.antt =====
-- `Upload` as a whole: what it refuses before any request, and that a file is sent whole.
use s3client.Common.{
  ℕ, zero, suc, if◌then◌else◌, ◌+◌, ◌-◌, ◌*◌, ◌^◌, ◌<◌, min, List, [], ◌∷◌, Bytes, none, some, ◌≡◌,
  ◌∙◌, arith, true, Bool,
}
use s3client.Transfer.Session.{Config, Error, thrown, Part, Api, Session}
use s3client.Transfer.Upload.{
  upload, upload_file, upload_data, upload_all, has_endpoint, source_name, c_string,
}
use s3client.Transfer.Upload.Requests.{Records, Completes, upload_all-Completes}
use s3client.Transfer.Plan.{jobs_plan, Tiles, IsRegular, ceil_div}
use s3client.Transfer.Plan.Tiling.{jobs_plan-Tiles}

-- The session with the counter of retries set back.
abbrev pub reset : {W : Type 0} → Session W → Session W
reset s = record { world = s.world; retries = 0 }

upload_all_of_file :
    {W : Type 0} (api : Api W) (cfg : Config) (s : Session W) (c : ℕ) (rest : Bytes) (e : Bytes)
    (es : List Bytes)
    → cfg.buffer ≡ none
    → cfg.file ≡ c ∷ rest
    → api.can_open s.world cfg.file ≡ true
    → cfg.endpoints ≡ e ∷ es
    → upload api cfg s ≡ upload_all api cfg (api.file_size s.world cfg.file) (reset s)
unfolding upload upload_file has_endpoint
upload_all_of_file api cfg s c rest e es hb hf ho he = ground arith

upload_all_of_buffer :
    {W : Type 0} (api : Api W) (cfg : Config) (s : Session W) (b e : Bytes) (es : List Bytes)
    → cfg.buffer ≡ some b
    → 0 < cfg.size
    → cfg.endpoints ≡ e ∷ es
    → upload api cfg s ≡ upload_all api cfg cfg.size (reset s)
unfolding upload upload_data has_endpoint
upload_all_of_buffer api cfg s b e es hb some_size he = ground arith

named : (cfg : Config) (b : Bytes) → cfg.buffer ≡ some b → source_name cfg ≡ c_string b
unfolding source_name
named cfg b hb = ground arith

pub named_file : (cfg : Config) → cfg.buffer ≡ none → source_name cfg ≡ some cfg.file
unfolding source_name
named_file cfg hb = ground arith

-- The error of a transfer with no endpoint, by what is wrong first.
abbrev pub refusal : Config → Bool → Error
refusal cfg opened = elim (cfg.buffer) [
  | some b ↦ elim (cfg.size) [ zero ↦ Error.zero_size | suc n ↦ Error.missing_endpoint ]
  | none ↦ elim (cfg.file) [
    | [] ↦ Error.empty_file_name
    | c ∷ rest ↦ if opened then Error.missing_endpoint else Error.cannot_open
  ]
]

-- With no endpoint an upload throws, whatever the source of its data, and makes no request.
pub upload_without_endpoint :
    {W : Type 0} (api : Api W) (cfg : Config) (s : Session W)
    → cfg.endpoints ≡ []
    → ((upload api cfg s).0 ≡ thrown (refusal cfg (api.can_open s.world cfg.file)))
      × ((upload api cfg s).1.world ≡ s.world)
unfolding upload upload_file upload_data has_endpoint
upload_without_endpoint api cfg s he = ground arith

-- An upload of a file that opens, to at least one endpoint, with requests that all succeed, sends the
-- bytes of the file from the first to the last, each once and in order, and completes the upload
-- with the etags of the parts in that order. There is at least one job and one part to a job, and no
-- part of equal size, rounded up, begins beyond the end of its job, nor a job beyond that of the file;
-- the number of all parts is below 2 ^ 31, and the size, the jobs and the parts of a job together are
-- below 2 ^ 63.
pub upload_covers :
    {W : Type 0} (api : Api W) (trace : W → List Part) (etag_of : Part → Bytes) (cfg : Config)
    (s : Session W) (c : ℕ) (rest e : Bytes) (es : List Bytes) (size : ℕ)
    → Records api trace etag_of
    → cfg.buffer ≡ none
    → cfg.file ≡ c ∷ rest
    → api.can_open s.world cfg.file ≡ true
    → api.file_size s.world cfg.file ≡ size
    → cfg.endpoints ≡ e ∷ es
    → 0 < cfg.jobs
    → 0 < cfg.parts_per_job
    → cfg.jobs * cfg.parts_per_job < 2 ^ 31
    → size + cfg.jobs + cfg.parts_per_job < 2 ^ 63
    → IsRegular cfg.jobs size
    → ((job : ℕ)
        → job < cfg.jobs
        → IsRegular cfg.parts_per_job
            (min (ceil_div size cfg.jobs) (size - job * ceil_div size cfg.jobs)))
    → (ps : List Part) × Completes api trace etag_of (reset s) (upload api cfg s) ps
      × Tiles 0 size ps
upload_covers api trace etag_of cfg s c rest e es size r hb hf ho hs he some_job pos fits small
      regular each =
    let same = upload_all_of_file api cfg s c rest e es hb hf ho he in
    let (ps, planned, tiles) =
      jobs_plan-Tiles cfg.file cfg.jobs cfg.parts_per_job size pos some_job fits small regular
        each in
    let done =
      upload_all-Completes api trace etag_of cfg size (reset s) cfg.file ps r (named_file cfg hb)
        some_job (omega arith) planned in
    (ps, rw (same, hs) done, tiles)

-- An upload of a buffer, with requests that all succeed, sends parts of the file whose name is the
-- text at the start of the buffer, up to its first zero byte, which there is, and completes with their
-- etags. There are an endpoint and a job, the bounds of the jobs are defined, and the size is positive
-- and, with the jobs, below 2 ^ 64.
pub upload_buffer_names :
    {W : Type 0} (api : Api W) (trace : W → List Part) (etag_of : Part → Bytes) (cfg : Config)
    (s : Session W) (b e : Bytes) (es : List Bytes) (name : Bytes) (ps : List Part)
    → Records api trace etag_of
    → cfg.buffer ≡ some b
    → c_string b ≡ some name
    → 0 < cfg.size
    → cfg.endpoints ≡ e ∷ es
    → 0 < cfg.jobs
    → cfg.size + cfg.jobs < 2 ^ 64
    → jobs_plan name (ceil_div cfg.size cfg.jobs) cfg.parts_per_job cfg.size cfg.jobs 0 ≡ some ps
    → Completes api trace etag_of (reset s) (upload api cfg s) ps
upload_buffer_names api trace etag_of cfg s b e es name ps r hb hn some_size he some_job small
      planned =
    let same : upload api cfg s ≡ upload_all api cfg cfg.size (reset s) =
      upload_all_of_buffer api cfg s b e es hb some_size he in
    rw same (
      upload_all-Completes api trace etag_of cfg cfg.size (reset s) name ps r (named cfg b hb ∙ hn)
        some_job small planned)
