-- ===== src/Transfer/Download/Retries.antt =====
-- `DownloadPart`: how often it tries before it throws.
use s3client.Common.{ℕ, zero, suc, ◌+◌, ◌≤◌, ◌<◌, Bytes, Bool, false, ◌≡◌, ◌⊎◌}
use s3client.Common.Word.{u64, sub64}
use s3client.Transfer.Session.{Error, Outcome, ok, thrown, Part, Api, Session}

-- How a part that is started with the counter at `n` may end.
abbrev pub Ended : {W : Type 0} → ℕ → ℕ → Outcome (Unit {0}) × Session W → Type 0
Ended max_retries n (ok a, s) = (n ≤ s.retries) × ((s.retries ≤ n) ⊎ (s.retries ≤ max_retries + 1))
Ended max_retries n (thrown Error.request_failed, s) =
    (n < s.retries) × (max_retries + 1 < s.retries)
Ended max_retries n (thrown e, s) = ⊥

module _ {W : Type 0} (api : Api W) (max_retries : ℕ) (endpoint : Bytes) (part : Part) where
  abbrev attempt : W → Bool × W
  attempt w = api.get_file_part w endpoint part (sub64 (u64 (part.offset + part.size)) 1)

  -- The next `k + 1` requests fail, and leave the world `last`.
  abbrev pub FailsThrough : ℕ → W → W → Type 0
  FailsThrough zero w last = attempt w ≡ (false, last)
  FailsThrough (suc k) w last = (next : W) × (attempt w ≡ (false, next)) × FailsThrough k next last
