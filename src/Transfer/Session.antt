-- ===== src/Transfer/Session.antt =====
-- What both directions of a transfer share: the arguments, the errors, and the state that a
-- transfer passes on, which is the outside world and the counter `retriesG` of the file. The calls
-- of `S3Api`, the file system and the random choice of an endpoint are the record `Api`.
use s3client.Common.{
  ℕ, ◌+◌, ◌-◌, ◌*◌, ◌^◌, List, [], Bytes, Option, none, some, Bool, ltb, if◌then◌else◌, ◌&&◌,
  get_or, length,
}
use s3client.Common.Word.{u32, u64}

-- `S3DataTransferConfig`, the fields that a transfer reads. A buffer at `data` is its bytes. The jobs
-- and the maximum of retries are an `int` that is not negative, the parts of a job a `size_t`.
pub record Config : Type 0 where
  pub bucket : Bytes
  pub key : Bytes
  pub file : Bytes
  pub buffer : Option Bytes
  pub size : ℕ
  pub endpoints : List Bytes
  pub max_retries : ℕ
  pub jobs : ℕ
  pub parts_per_job : ℕ

-- `crash` is a division by zero, an `int` that overflows, or a read beyond the end of a buffer;
-- `no_fuel` marks a retry loop that was given too few rounds.
pub data Error : Type 0 where
  missing_endpoint cannot_open null_buffer zero_size empty_file_name request_failed : Error
  crash no_fuel : Error

pub data Outcome {ℓ} (A : Type ℓ) : Type ℓ where
  ok : A → Outcome A
  thrown : Error → Outcome A

-- A request for a part: bytes `offset` to `offset + size - 1` of the named file. The number is an
-- `int`, here its bit pattern.
pub record Part : Type 0 where
  pub file : Bytes
  pub offset : ℕ
  pub size : ℕ
  pub number : ℕ

-- Each call takes the world to its successor; `none` and `false` are exceptions. An upload names the
-- endpoint, the upload id and the part; a download the endpoint, the part and its last byte.
pub record Api (W : Type 0) : Type 0 where
  pub random_index : W → ℕ → ℕ → ℕ × W
  pub can_open : W → Bytes → Bool
  pub file_size : W → Bytes → ℕ
  pub create : W → Bytes → Option Bytes × W
  pub upload_file_part : W → Bytes → Bytes → Part → Option Bytes × W
  pub complete : W → Bytes → Bytes → List Bytes → Option Bytes × W
  pub object_size : W → Bytes → Option ℕ × W
  pub prepare_file : W → Bytes → ℕ → W
  pub get_file_part : W → Bytes → Part → ℕ → Bool × W

pub record Session (W : Type 0) : Type 0 where
  pub world : W
  pub retries : ℕ

abbrev pub M : Type 0 → Type 0 → Type 0
M W A = Session W → Outcome A × Session W

abbrev pub return : {W A : Type 0} → A → M W A
return a s = (ok a, s)

abbrev pub throw : {W A : Type 0} → Error → M W A
throw e s = (thrown e, s)

abbrev pub bound : {W A B : Type 0} → Outcome A × Session W → (A → M W B) → Outcome B × Session W
bound (ok a, s) f = f a s
bound (thrown e, s) f = (thrown e, s)

infixl 5 ◌>>=◌ ◌>>◌
abbrev pub ◌>>=◌ : {W A B : Type 0} → M W A → (A → M W B) → M W B
◌>>=◌ m f s = bound (m s) f

abbrev pub ◌>>◌ : {W A B : Type 0} → M W A → M W B → M W B
m >> k = m >>= λ _. k

-- A call of the outside world, whose failure is an exception.
abbrev pub outcome : {A : Type 0} → Option A → Outcome A
outcome none = thrown request_failed
outcome (some a) = ok a

abbrev pub called : {W A : Type 0} → ℕ → Option A × W → Outcome A × Session W
called n (r, w) = (outcome r, record { world = w; retries = n })

abbrev pub call : {W A : Type 0} → (W → Option A × W) → M W A
call f s = called s.retries (f s.world)

abbrev pub ask : {W A : Type 0} → (W → A) → M W A
ask f s = (ok (f s.world), s)

abbrev pub chosen : {W : Type 0} → ℕ → ℕ × W → Outcome ℕ × Session W
chosen n (i, w) = (ok i, record { world = w; retries = n })

-- `endpoints[RandomIndex(0, endpoints.size() - 1)]`.
unfoldable pub pick_endpoint : {W : Type 0} → Api W → List Bytes → M W Bytes
pick_endpoint api endpoints = do
  i ← λ s. chosen s.retries (api.random_index s.world 0 (length endpoints - 1))
  return (get_or endpoints i [])

-- The bounds that a call gives job `i`, `i * cfg.partsPerJob` and `i * cfg.partsPerJob + cfg.partsPerJob`
-- in `size_t`. The parameters of the call are `int`: a bound keeps its low 32 bits, here the bit
-- pattern of the `int`.
abbrev pub first_of : ℕ → ℕ → ℕ
first_of parts_per_job i = u32 (u64 (i * parts_per_job))

abbrev pub last_of : ℕ → ℕ → ℕ
last_of parts_per_job i = u32 (u64 (i * parts_per_job + parts_per_job))

-- `lastPart - firstPart` of two `int`, if it is positive and an `int`: 2 ^ 31 is added to both, so that
-- their order is that of ℕ. With 0 parts the program divides by zero, with fewer the loop counts its
-- `int` beyond the largest one: both are none.
unfoldable pub part_count : ℕ → ℕ → Option ℕ
part_count first_part last_part =
    let first = u32 (first_part + 2 ^ 31) in
    let last = u32 (last_part + 2 ^ 31) in
    if ltb first last && ltb (last - first) (2 ^ 31) then some (last - first) else none

-- What the program needs to go on; without it, it crashes.
abbrev pub or_crash : {W A : Type 0} → Option A → M W A
or_crash none = throw Error.crash
or_crash (some a) = return a

-- `retriesG = 0`.
abbrev pub reset_retries : {W : Type 0} → M W (Unit {0})
reset_retries s = (ok tt, record { world = s.world; retries = 0 })
