-- ===== src/Api/Objects/Bounds.antt =====
-- Where `GetObject` copies a body to.
use s3client.Common.{ℕ, ◌+◌, Bytes, length, take, drop, ◌≡◌}
use s3client.Common.Dict.{Dict}

-- A copy that fits puts the bytes at the offset and keeps the bytes around them.
pub IsCopy : Bytes → ℕ → Bytes → Bytes → Type 0
IsCopy buffer offset bytes r =
    (length r ≡ length buffer)
    × (take (length bytes) (drop offset r) ≡ bytes)
    × (take offset r ≡ take offset buffer)
    × (drop (offset + length bytes) r ≡ drop (offset + length bytes) buffer)
