-- ===== src/Transfer/Plan/Tiling.antt =====
-- When the parts of a job, and those of all jobs, cover their bytes.
use native.Mathlib.Nat.{mul-le-mul_right, mod-add-div', mod-lt}
use native.Mathlib.Decide.{dec_le}
use s3client.Common.{
  ℕ, zero, suc, ◌+◌, ◌-◌, ◌*◌, ◌^◌, ◌≤◌, ◌<◌, min, List, [], ◌∷◌, ◌++◌, Bytes, some, ◌≡◌, ◌↔◌, refl,
  ap, arith,
}
use s3client.Common.Word.{u64, sub64}
use s3client.Transfer.Session.{Part, first_of}
use s3client.Transfer.Plan.Counts.{part_count_exact, job_fits}
use s3client.Transfer.Plan.{loop_plan, job_plan, jobs_plan, Tiles, ceil_div, IsRegular}

sum_sizes : List Part → ℕ
sum_sizes [] = 0
sum_sizes (p ∷ ps) = p.size + sum_sizes ps

Tiles-sum_sizes : (a b : ℕ) (ps : List Part) → Tiles a b ps → a + sum_sizes ps ≡ b
unfolding sum_sizes
Tiles-sum_sizes a b [] h = omega arith
Tiles-sum_sizes a b (p ∷ ps) (at, h) = omega (arith, Tiles-sum_sizes (a + p.size) b ps h)

-- `p` is the size of `n` equal parts of `c` bytes, rounded up.
ceil_div_bounds : (c n : ℕ) → 0 < n → (c ≤ n * ceil_div c n) × (n * ceil_div c n < c + n)
ceil_div_bounds c n h =
    let t : ℕ = c + n - 1 in
    let split = mod-add-div' t n in let low = mod-lt t h in (omega arith, omega arith)

module _ (file : Bytes) (first base c n p : ℕ) (h : c + n < 2 ^ 63) (high : n * p < c + n) where
  -- The loop at round `i`.
  abbrev rounds : ℕ → ℕ → ℕ → List Part
  rounds left i offset = loop_plan file first p c left i offset

  abbrev round_size : ℕ → ℕ
  round_size i = min p (sub64 c (u64 (i * p)))

  index_bound : (i : ℕ) → i < n → i * p ≤ (n - 1) * p
  index_bound i lt = mul-le-mul_right p (omega arith)

  last_bound : 0 < n → (n - 1) * p + p ≡ n * p
  last_bound lt = let e : n - 1 + 1 ≡ n = omega arith in omega (arith, ap (λ (t : ℕ). t * p) e)

  size_inside : (i : ℕ) → i < n → i * p ≤ c → round_size i ≡ min p (c - i * p)
  size_inside i lt inside = omega arith

  size_beyond : (i : ℕ) → i < n → c < i * p → round_size i ≡ p
  size_beyond i lt beyond = omega (arith, index_bound i lt, last_bound (omega arith))

  -- All rounds before the end of the chunk: the parts cover what is left of it.
  module _ (regular : (n - 1) * p ≤ c) (covered : c ≤ n * p) (fits : base + c < 2 ^ 64) where
    rounds-Tiles :
        (left i : ℕ)
        → i + left ≡ n
        → Tiles (base + min (i * p) c) (base + c) (rounds left i (base + min (i * p) c))
    unfolding loop_plan
    rounds-Tiles zero i e =
        let done : i * p ≡ n * p = ap (λ (t : ℕ). t * p) (omega arith) in omega arith
    rounds-Tiles (suc left) i e =
        let inside : i * p ≤ c = omega (arith, index_bound i (omega arith)) in
        let size : round_size i ≡ min p (c - i * p) = size_inside i (omega arith) inside in
        let next : base + min (i * p) c + round_size i ≡ base + min ((i + 1) * p) c =
          omega (arith, size) in
        let wrap : u64 (base + min (i * p) c + round_size i) ≡ base + min ((i + 1) * p) c =
          omega (arith, next) in
        (refl, rw wrap (rw next (rounds-Tiles left (i + 1) (omega arith))))

  -- A round that starts beyond the end of the chunk still asks for a whole part: the parts are
  -- longer than the chunk together.
  module _ (irregular : c < (n - 1) * p) where
    part_pos : 0 < n → 0 < p
    part_pos lt = grind arith

    rounds_too_long :
        (left i offset : ℕ)
        → i + suc left ≡ n
        → (0 < sum_sizes (rounds (suc left) i offset))
          × (c < i * p + sum_sizes (rounds (suc left) i offset))
    unfolding loop_plan sum_sizes
    rounds_too_long zero i offset e =
        let last : i * p ≡ (n - 1) * p = ap (λ (t : ℕ). t * p) (omega arith) in
        let size = size_beyond i (omega arith) (omega (arith, last)) in
        let pos = part_pos (omega arith) in (omega (arith, size), omega (arith, size, last))
    rounds_too_long (suc left) i offset e =
        let (pos, long) =
          rounds_too_long left (i + 1) (u64 (offset + round_size i)) (omega arith) in
        elim (dec_le (i * p) c) [
          | yes inside ↦
              let size = size_inside i (omega arith) inside in
              (omega (arith, pos), omega (arith, size, pos, long))
          | no beyond ↦
              let size = size_beyond i (omega arith) (omega arith) in
              (omega (arith, pos), omega (arith, size, pos, long))
        ]

-- One job whose data lies within the file.
module _ (file : Bytes) (per_job first n size job : ℕ) (pos : 0 < n) (within : job * per_job ≤ size)
    (small : size + n < 2 ^ 63) where
  abbrev chunk : ℕ
  chunk = min per_job (size - job * per_job)

  job_plan-loop_plan :
      job_plan file per_job first n size job
      ≡ loop_plan file first (ceil_div chunk n) chunk n 0 (job * per_job)
  unfolding job_plan
  job_plan-loop_plan =
      let start : u64 (job * per_job) ≡ job * per_job = omega arith in
      let room : sub64 size (job * per_job) ≡ size - job * per_job = omega arith in
      let part : u64 (chunk + n - 1) ≡ chunk + n - 1 = omega arith in rw (start, room, part)

  Tiles-of_regular :
      IsRegular n chunk
      → Tiles (job * per_job) (job * per_job + chunk) (job_plan file per_job first n size job)
  Tiles-of_regular regular =
      let (covered, high) = ceil_div_bounds chunk n pos in
      let whole =
        rounds-Tiles file first (job * per_job) chunk n (ceil_div chunk n) (omega arith) high
          regular covered (omega arith) n 0 (omega arith) in
      let start : job * per_job + min (0 * ceil_div chunk n) chunk ≡ job * per_job = omega arith in
      rw job_plan-loop_plan (rw start at whole)

  IsRegular-of_Tiles :
      Tiles (job * per_job) (job * per_job + chunk) (job_plan file per_job first n size job)
      → IsRegular n chunk
  IsRegular-of_Tiles tiles = elim (dec_le ((n - 1) * ceil_div chunk n) chunk) [
    | yes regular ↦ regular
    | no irregular ↦
        let part : ℕ = ceil_div chunk n in
        let base : ℕ = job * per_job in
        let (covered, high) = ceil_div_bounds chunk n pos in
        let total = Tiles-sum_sizes base (base + chunk) _ (rw job_plan-loop_plan at tiles) in
        let (some_size, long) =
          rounds_too_long file first base chunk n part (omega arith) high (omega arith) (n - 1) 0
            base (omega arith) in
        let last : n ≡ suc (n - 1) = omega arith in
        let same = ap (λ (k : ℕ). sum_sizes (loop_plan file first part chunk k 0 base)) last in
        absurd (omega (arith, total, long, same))
  ]

-- For a job whose data starts within the file, the parts cover exactly the bytes of the job, each
-- once and in order, if and only if parts of equal size, rounded up, leave the last part at or before
-- the end of those bytes. There is at least one part, and the size and the parts are together below
-- 2 ^ 63.
pub job_plan-Tiles_iff :
    (file : Bytes) (per_job first n size job : ℕ)
    → 0 < n
    → job * per_job ≤ size
    → size + n < 2 ^ 63
    → Tiles
        (job * per_job)
        (job * per_job + min per_job (size - job * per_job))
        (job_plan file per_job first n size job)
      ↔ IsRegular n (min per_job (size - job * per_job))
job_plan-Tiles_iff file per_job first n size job pos within small = (
  IsRegular-of_Tiles file per_job first n size job pos within small,
  Tiles-of_regular file per_job first n size job pos within small,
)

Tiles-append : (a b c : ℕ) (ps qs : List Part) → Tiles a b ps → Tiles b c qs → Tiles a c (ps ++ qs)
Tiles-append a b c [] qs h k = rw h k
Tiles-append a b c (p ∷ ps) qs (at, h) k = (at, Tiles-append (a + p.size) b c ps qs h k)

-- The jobs from job `i` on.
module _ (file : Bytes) (jobs n size : ℕ) (pos : 0 < n) (some_job : 0 < jobs)
    (fits : jobs * n < 2 ^ 31) (small : size + jobs + n < 2 ^ 63) (regular : IsRegular jobs size)
    (each : (job : ℕ)
      → job < jobs
      → IsRegular n (min (ceil_div size jobs) (size - job * ceil_div size jobs))) where
  abbrev share : ℕ
  share = ceil_div size jobs

  from_job :
      (left i : ℕ)
      → i + left ≡ jobs
      → (ps : List Part) × (jobs_plan file share n size left i ≡ some ps)
        × Tiles (min (i * share) size) size ps
  unfolding jobs_plan
  from_job zero i e =
      let (covered, high) = ceil_div_bounds size jobs some_job in
      let done : i * share ≡ jobs * share = ap (λ (t : ℕ). t * share) (omega arith) in
      ([], refl, omega (arith, done, covered))
  from_job (suc left) i e =
      let last = mul-le-mul_right {m = i} {n = jobs - 1} share (omega arith) in
      let within : i * share ≤ size = omega (arith, last, regular) in
      let one =
        Tiles-of_regular file share (first_of n i) n size i pos within (omega arith)
          (each i (omega arith)) in
      let count = part_count_exact n i pos (job_fits n jobs i (omega arith) fits) in
      let (ps, planned, tiles) = from_job left (i + 1) (omega arith) in
      let start : min (i * share) size ≡ i * share = omega (arith, within) in
      let end : i * share + min share (size - i * share) ≡ min ((i + 1) * share) size =
        omega (arith, within) in
      let plan = job_plan file share (first_of n i) n size i in
      (
        plan ++ ps,
        rw (count, planned) refl,
        rw start (
            Tiles-append (i * share) (min ((i + 1) * share) size) size plan ps (rw end at one)
              tiles),
      )

-- Each job has its parts, and the parts of all jobs cover the data from byte 0 to its end, each byte
-- once and in order, if the jobs divide the data and the parts divide each job with no part that
-- begins beyond its end, there is a job and a part to it, the number of all parts is below 2 ^ 31, so
-- that the bounds of the jobs fit an `int`, and the size, the jobs and the parts of a job are together
-- below 2 ^ 63.
pub jobs_plan-Tiles :
    (file : Bytes) (jobs n size : ℕ)
    → 0 < n
    → 0 < jobs
    → jobs * n < 2 ^ 31
    → size + jobs + n < 2 ^ 63
    → IsRegular jobs size
    → ((job : ℕ)
        → job < jobs
        → IsRegular n (min (ceil_div size jobs) (size - job * ceil_div size jobs)))
    → (ps : List Part) × (jobs_plan file (ceil_div size jobs) n size jobs 0 ≡ some ps)
      × Tiles 0 size ps
jobs_plan-Tiles file jobs n size pos some_job fits small regular each =
    let start : min (0 * ceil_div size jobs) size ≡ 0 = omega arith in
    rw start at
      (from_job file jobs n size pos some_job fits small regular each jobs 0 (omega arith))
