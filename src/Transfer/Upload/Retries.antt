-- ===== src/Transfer/Upload/Retries.antt =====
-- `DoUploadPart`: how often it tries, and what it returns.
use s3client.Common.{
  ℕ, zero, suc, ◌+◌, ◌≤◌, ◌<◌, Bytes, none, some, ◌≡◌, ◌⊎◌, arith, ltb, true, false, ◌∙◌, ap,
}
use s3client.Transfer.Session.{Error, Outcome, ok, thrown, Part, Api, Session}
use s3client.Transfer.Upload.{do_upload_part, retry_or_throw}

-- How a part that is started with the counter at `n` may end.
abbrev pub Ended : {W : Type 0} → ℕ → ℕ → Outcome Bytes × Session W → Type 0
Ended max_retries n (ok etag, s) = (n ≤ s.retries) × ((s.retries ≤ n) ⊎ (s.retries ≤ max_retries))
Ended max_retries n (thrown Error.request_failed, s) = (n < s.retries) × (max_retries < s.retries)
Ended max_retries n (thrown e, s) = ⊥

module _ {W : Type 0} (api : Api W) (max_retries : ℕ) (endpoint uid : Bytes) (part : Part) where
  -- The next `k` requests fail, and the one after them returns the etag.
  abbrev pub FailsThen : ℕ → W → Bytes → W → Type 0
  FailsThen zero w etag last = api.upload_file_part w endpoint uid part ≡ (some etag, last)
  FailsThen (suc k) w etag last =
      (next : W) × (api.upload_file_part w endpoint uid part ≡ (none, next))
      × FailsThen k next etag last

  -- The next `k + 1` requests fail, and leave the world `last`.
  abbrev pub FailsThrough : ℕ → W → W → Type 0
  FailsThrough zero w last = api.upload_file_part w endpoint uid part ≡ (none, last)
  FailsThrough (suc k) w last =
      (next : W) × (api.upload_file_part w endpoint uid part ≡ (none, next))
      × FailsThrough k next last

  succeeds :
      (fuel k n : ℕ) (w : W) (etag : Bytes) (last : W)
      → k < fuel
      → n + k ≤ max_retries
      → FailsThen k w etag last
      → do_upload_part api fuel max_retries endpoint uid part (record { world = w; retries = n })
        ≡ (ok etag, record { world = last; retries = n + k })
  unfolding do_upload_part retry_or_throw
  succeeds zero k n w etag last h fits f = absurd (omega arith)
  succeeds (suc fuel) zero n w etag last h fits f =
      let e : n ≡ n + 0 = omega arith in
      rw f (ap (λ (t : ℕ). (ok etag, record { world = last; retries = t })) e)
  succeeds (suc fuel) (suc k) n w etag last h fits (next, failed, f) =
      let again : ltb n max_retries ≡ true = ground arith in
      let e : n + 1 + k ≡ n + suc k = omega arith in
      rw (failed, again)
        (succeeds fuel k (n + 1) next etag last (omega arith) (omega arith) f
          ∙ ap (λ (t : ℕ). (ok etag, record { world = last; retries = t })) e)

  gives_up :
      (fuel k n : ℕ) (w last : W)
      → k < fuel
      → n + k ≡ max_retries
      → FailsThrough k w last
      → do_upload_part api fuel max_retries endpoint uid part (record { world = w; retries = n })
        ≡ (thrown Error.request_failed, record { world = last; retries = max_retries + 1 })
  unfolding do_upload_part retry_or_throw
  gives_up zero k n w last h fits f = absurd (omega arith)
  gives_up (suc fuel) zero n w last h fits f =
      let stop : ltb n max_retries ≡ false = ground arith in
      let e : n + 1 ≡ max_retries + 1 = omega arith in
      rw (f, stop)
        (ap (λ (t : ℕ). (thrown Error.request_failed, record { world = last; retries = t })) e)
  gives_up (suc fuel) (suc k) n w last h fits (next, failed, f) =
      let again : ltb n max_retries ≡ true = ground arith in
      rw (failed, again) (gives_up fuel k (n + 1) next last (omega arith) (omega arith) f)

-- A part whose requests fail `k` times, with `k` retries left, is uploaded: the retries are counted.
pub do_upload_part_succeeds :
    {W : Type 0} (api : Api W) (max_retries : ℕ) (endpoint uid : Bytes) (part : Part) (k n : ℕ)
    (w : W) (etag : Bytes) (last : W)
    → n + k ≤ max_retries
    → FailsThen api max_retries endpoint uid part k w etag last
    → do_upload_part api
        (suc max_retries)
        max_retries
        endpoint
        uid
        part
        (record { world = w; retries = n })
      ≡ (ok etag, record { world = last; retries = n + k })
do_upload_part_succeeds api max_retries endpoint uid part k n w etag last fits f =
    succeeds api max_retries endpoint uid part (suc max_retries) k n w etag last (omega arith) fits
      f
