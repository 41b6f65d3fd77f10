-- ===== src/Api/Multipart/Retries.antt =====
-- How often an upload of a part is tried, and what its retries leave in the counter.
use s3client.Common.{
  ℕ, zero, suc, ◌+◌, ◌-◌, ◌^◌, ◌≤◌, ◌<◌, ltb, Bytes, ◌==◌, true, false, ◌≡◌, ◌≢◌, refl, ap, ◌∙◌,
  arith,
}
use mathlib.Core.Logic.{◌⊎◌, inl, inr}
use s3client.Common.Dict.{Dict}
use s3client.Api.{Environment, S3Api, Error, no_fuel, Result, ok, err, Action}
use s3client.Api.Send.Lost.{IsLost, Fails, then-Fails, send-Fails}
use s3client.Api.Multipart.{
  retried, retry_loop, try_part, upload_part, FileIoMode, try_file_part, upload_file_part,
}

module _ {W : Type 0} (attempt : Action W Bytes) where
  -- The next `k` tries fail, each from the state that the one before it leaves with the counter one
  -- higher, and the one after them ends so.
  abbrev pub AfterFailures : ℕ → S3Api W → Result Bytes × S3Api W → Type 0
  AfterFailures zero s last = attempt s ≡ last
  AfterFailures (suc k) s last =
      (e : Error) × (next : S3Api W) × (attempt s ≡ (err e, next))
      × AfterFailures k (record next { retries = next.retries + 1 }) last

  retried_last :
      (n : ℕ) (again : Action W Bytes) (r : Result Bytes) (t : S3Api W)
      → retried n n again (r, t) ≡ (r, t)
  unfolding retried
  retried_last n again (ok etag) t = refl
  retried_last n again (err e) t = let same : (n == n) ≡ true = ground arith in rw same refl

  retried_ok :
      (n max_retries : ℕ) (again : Action W Bytes) (etag : Bytes) (t : S3Api W)
      → retried n max_retries again (ok etag, t) ≡ (ok etag, t)
  unfolding retried
  retried_ok n max_retries again etag t = refl

  retried_more :
      (n max_retries : ℕ) (again : Action W Bytes) (e : Error) (t : S3Api W)
      → n ≢ max_retries
      → n + 1 < 2 ^ 31
      → retried n max_retries again (err e, t) ≡ again (record t { retries = t.retries + 1 })
  unfolding retried
  retried_more n max_retries again e t h room =
      let other : (n == max_retries) ≡ false = ground arith in
      let below : ltb n (2 ^ 31 - 1) ≡ true = ground arith in rw (other, below) refl

  -- With a maximum of at least one try, a part whose first `k` tries fail ends as the try after them
  -- does, if that returns an ETag or is the last one: no more tries are made.
  retries_from :
      (fuel k n max_retries : ℕ) (s : S3Api W) (r : Result Bytes) (t : S3Api W)
      → k < fuel
      → n + k ≤ max_retries
      → max_retries < 2 ^ 31
      → AfterFailures k s (r, t)
      → ((etag : Bytes) × (r ≡ ok etag)) ⊎ (n + k ≡ max_retries)
      → retry_loop fuel n max_retries attempt s ≡ (r, t)
  unfolding retry_loop
  retries_from zero k n max_retries s r t h fits int f last = absurd (omega arith)
  retries_from (suc fuel) zero n max_retries s r t h fits int f (inl (etag, e)) =
      rw (f, e) (retried_ok n max_retries _ etag t)
  retries_from (suc fuel) zero n max_retries s r t h fits int f (inr e) =
      let same : max_retries ≡ n = omega arith in rw (f, same) (retried_last n _ r t)
  retries_from (suc fuel) (suc k) n max_retries s r t h fits int (e, next, failed, f) last =
      rw failed (
        retried_more n max_retries _ e next (omega arith) (omega arith)
        ∙ retries_from fuel k (n + 1) max_retries _ r t (omega arith) (omega arith) int f
            (moved last))
    where
      moved :
          ((etag : Bytes) × (r ≡ ok etag)) ⊎ (n + suc k ≡ max_retries)
          → ((etag : Bytes) × (r ≡ ok etag)) ⊎ (n + 1 + k ≡ max_retries)
      moved (inl x) = inl x
      moved (inr x) = inr (omega arith)

  -- With a maximum of 0 no try is the last one: while the tries fail, there is another, up to the
  -- largest `int`.
  never_ends :
      (fuel n : ℕ) (s : S3Api W)
      → 0 < n
      → fuel + n < 2 ^ 31
      → ((s : S3Api W) → (e : Error) × (next : S3Api W) × (attempt s ≡ (err e, next)))
      → (retry_loop fuel n 0 attempt s).0 ≡ err no_fuel
  unfolding retry_loop
  never_ends zero n s h room f = refl
  never_ends (suc fuel) n s h room f =
      let (e, next, failed) = f s in
      rw failed (
        ap (λ (r : Result Bytes × S3Api W). r.0)
          (retried_more n 0 _ e next (omega arith) (omega arith))
        ∙ never_ends fuel (n + 1) _ (omega arith) (omega arith) f)

-- `UploadFilePart` makes its tries as `UploadPart` does, whatever the mode of reading.
pub upload_file_part_tries :
    {W : Type 0} (env : Environment W) (fuel k : ℕ) (name : Bytes) (offset size : ℕ)
    (bucket key uid : Bytes) (i : ℕ) (mode : FileIoMode) (max_retries : ℕ) (headers : Dict Bytes)
    (hash : Bytes) (s : S3Api W) (r : Result Bytes) (t : S3Api W)
    → k < fuel
    → 1 + k ≤ max_retries
    → max_retries < 2 ^ 31
    → AfterFailures
        (try_file_part env name offset size bucket key uid i mode headers hash)
        k
        s
        (r, t)
    → ((etag : Bytes) × (r ≡ ok etag)) ⊎ (1 + k ≡ max_retries)
    → upload_file_part env fuel name offset size bucket key uid i mode max_retries headers hash s
      ≡ (r, t)
unfolding upload_file_part
upload_file_part_tries env fuel k name offset size bucket key uid i mode max_retries headers hash s
      r t h fits int f last =
    retries_from (try_file_part env name offset size bucket key uid i mode headers hash) fuel k 1
      max_retries s r t h fits int f last

try_part-Fails :
    {W : Type 0} (env : Environment W) (bucket key content uid : Bytes) (i size : ℕ)
    (headers : Dict Bytes) (s : S3Api W)
    → IsLost env.net
    → Fails (try_part env bucket key content uid i size headers s)
unfolding try_part
try_part-Fails env bucket key content uid i size headers s lost =
    then-Fails env lost _ _ (send-Fails env lost _ content size s refl refl)

-- With a maximum of 0 retries, no try of `UploadPart` is the last one while no request is answered, as
-- long as the number of the try fits an `int`: 2 ^ 31 - 2 tries, or fewer, leave it still trying.
pub upload_part_endless :
    {W : Type 0} (env : Environment W) (fuel : ℕ) (bucket key uid : Bytes) (i : ℕ) (content : Bytes)
    (size : ℕ) (headers : Dict Bytes) (s : S3Api W)
    → IsLost env.net
    → fuel + 1 < 2 ^ 31
    → (upload_part env fuel bucket key uid i content size 0 headers s).0 ≡ err no_fuel
unfolding upload_part Fails
upload_part_endless env fuel bucket key uid i content size headers s lost room =
    never_ends (try_part env bucket key content uid i size headers) fuel 1 s (omega arith) room
      (λ t. try_part-Fails env bucket key content uid i size headers t lost)
