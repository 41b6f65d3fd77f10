-- ===== src/Transfer/Plan.antt =====
-- The parts that a transfer asks for, apart from the requests: the arithmetic of `UploadParts` and
-- `DownloadParts` (lib/src/upload.cpp, lib/src/download.cpp), which is the same in both, and whether
-- the parts cover the data.
pub mod Counts
pub mod Tiling
use s3client.Common.{
  ℕ, zero, suc, ◌+◌, ◌-◌, ◌*◌, ◌/◌, ◌%◌, ◌^◌, ◌≤◌, ◌<◌, min, List, [], ◌∷◌, ◌++◌, Bytes, Option,
  none, some, ◌≡◌,
}
use s3client.Common.Word.{u32, u64, sub64}
use s3client.Hash.Utility.{◌>>=◌}
use s3client.Transfer.Session.{Part, first_of, last_of, part_count}

-- The parts of the loop with its remaining rounds.
unfoldable pub loop_plan : Bytes → ℕ → ℕ → ℕ → ℕ → ℕ → ℕ → List Part
loop_plan file first_part part_size chunk_size zero i offset = []
loop_plan file first_part part_size chunk_size (suc left) i offset =
    let size = min part_size (sub64 chunk_size (u64 (i * part_size))) in
    record { file = file; offset = offset; size = size; number = u32 (first_part + i) }
    ∷ loop_plan file first_part part_size chunk_size left (i + 1) (u64 (offset + size))

-- The parts of one job.
unfoldable pub job_plan : Bytes → ℕ → ℕ → ℕ → ℕ → ℕ → List Part
job_plan file chunk_size first_part num_parts file_size job_id =
    let offset = u64 (job_id * chunk_size) in
    let chunk = min chunk_size (sub64 file_size offset) in
    loop_plan file first_part (u64 (chunk + num_parts - 1) / num_parts) chunk num_parts 0 offset

-- The parts of the jobs from job `i` on: none if the bounds of one leave it no parts.
unfoldable pub jobs_plan : Bytes → ℕ → ℕ → ℕ → ℕ → ℕ → Option (List Part)
jobs_plan file per_job_size parts_per_job file_size zero i = some []
jobs_plan file per_job_size parts_per_job file_size (suc left) i = do
  num_parts ← part_count (first_of parts_per_job i) (last_of parts_per_job i)
  rest ← jobs_plan file per_job_size parts_per_job file_size left (i + 1)
  some (job_plan file per_job_size (first_of parts_per_job i) num_parts file_size i ++ rest)

-- The parts follow one another from `a` to `b`, with no gap and no overlap.
abbrev pub Tiles : ℕ → ℕ → List Part → Type 0
Tiles a b [] = a ≡ b
Tiles a b (p ∷ ps) = (p.offset ≡ a) × Tiles (a + p.size) b ps

abbrev pub ceil_div : ℕ → ℕ → ℕ
ceil_div c n = (c + n - 1) / n

-- `n` parts of equal size, rounded up, leave the last of them at or before the end of `c` bytes.
abbrev pub IsRegular : ℕ → ℕ → Type 0
IsRegular n c = (n - 1) * ceil_div c n ≤ c
