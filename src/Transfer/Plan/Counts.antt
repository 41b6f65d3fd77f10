-- ===== src/Transfer/Plan/Counts.antt =====
-- The `int` bounds of the jobs: how many parts they leave to a job.
use s3client.Common.{ℕ, ◌+◌, ◌-◌, ◌*◌, ◌^◌, ◌≤◌, ◌<◌, some, ◌≡◌, arith}
use native.Mathlib.Nat.{mul-le-mul_right}
use s3client.Common.Word.{u32}
use s3client.Transfer.Session.{first_of, last_of, part_count}

-- Job `i` has its parts in full, if their numbers fit an `int`.
pub part_count_exact :
    (p i : ℕ) → 0 < p → i * p + p < 2 ^ 31 → part_count (first_of p i) (last_of p i) ≡ some p
unfolding part_count
part_count_exact p i pos fits =
    let first : u32 (first_of p i + 2 ^ 31) ≡ i * p + 2 ^ 31 = omega arith in
    let last : u32 (last_of p i + 2 ^ 31) ≡ i * p + p + 2 ^ 31 = omega arith in
    let count : i * p + p + 2 ^ 31 - (i * p + 2 ^ 31) ≡ p = omega arith in
    rw (first, last, count) (ground arith)

-- No job has more parts than it is to have.
pub part_count_bound : (p i n : ℕ) → part_count (first_of p i) (last_of p i) ≡ some n → n ≤ p
unfolding part_count
part_count_bound p i n e =
    let first : ℕ = u32 (first_of p i + 2 ^ 31) in
    let last : ℕ = u32 (last_of p i + 2 ^ 31) in
    let least : last - first ≤ p = omega arith in ground (arith, least)

-- The bound of the last job is that of all.
pub job_fits : (p jobs i : ℕ) → i < jobs → jobs * p < 2 ^ 31 → i * p + p < 2 ^ 31
job_fits p jobs i lt fits =
    let last = mul-le-mul_right {m = i + 1} {n = jobs} p (omega arith) in omega (arith, last)
