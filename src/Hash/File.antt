-- ===== src/Hash/File.antt =====
-- The reading of a file in `sha256_file` and `md5_file`, which differ in the hash of a buffer, `stream`,
-- and in the order of the bytes of the length, `field`. The file is its bytes, read into a buffer of a
-- given size; `none` is an `exit`, when a read gives no byte.
use s3client.Common.{
  ℕ, zero, suc, ◌+◌, ◌-◌, ◌*◌, [], ◌∷◌, Bytes, Option, none, Bool, ◌||◌, ltb, ◌==◌, if◌then◌else◌,
  length, take, drop,
}
use s3client.Common.Word.{u64}
use s3client.Hash.Utility.{next_div_by, copy_at, zeros, ◌>>=◌}

-- 16 MiB.
abbrev pub buf_size : ℕ
buf_size = 0x1000000

-- The end of the file: a read that does not fill the buffer, or no byte behind it (`getc`).
unfoldable pub is_eof : ℕ → Bytes → Bytes → Bool
is_eof room buf unread = ltb (length buf) room || length unread == 0

module _ {H : Type 0} (stream : H → Bytes → ℕ → Option H) (field : ℕ → Bytes) where
  -- The last bytes of the file with their padding, and the length of the whole file.
  unfoldable pub last_message : Bytes → ℕ → Option Bytes
  last_message buf total = do
    message_size ← next_div_by (u64 (length buf + 1 + 8)) 64
    copied ← copy_at (zeros message_size) 0 buf
    message ← copy_at copied (length buf) (0x80 ∷ [])
    copy_at message (message_size - 8) (field (u64 (8 * total)))

  unfoldable pub hash_last : H → Bytes → ℕ → Option H
  hash_last hash buf total = do
    message ← last_message buf total
    stream hash message (length message)

  unfoldable pub file_loop : ℕ → ℕ → ℕ → H → Bytes → Option H
  file_loop zero room read hash file = none
  file_loop (suc fuel) room read hash file =
      let buf = take room file in
      let unread = drop room file in
      let last = hash_last hash buf (read + length buf) in
      let next =
        stream hash buf room >>= λ h. file_loop fuel room (u64 (read + length buf)) h unread in
      if length buf == 0 then none else if is_eof room buf unread then last else next
