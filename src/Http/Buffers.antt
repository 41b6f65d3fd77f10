-- ===== src/Http/Buffers.antt =====
-- The callbacks of lib/src/webclient.cpp that libcurl reads from and writes to. A call is given
-- `size * nmemb` bytes of room; what it copies is its result, with the buffer that it leaves.
pub mod Drained
use s3client.Common.{
  ℕ, zero, suc, ◌+◌, ◌-◌, ◌*◌, List, [], ◌∷◌, ◌++◌, Bytes, Bool, leb, min, if◌then◌else◌, length,
  take, drop,
}

-- `Buffer`, `offset` being the next place of insertion.
pub record Buffer : Type 0 where
  pub offset : ℕ
  pub content : Bytes

-- `MemReadBuffer`: the bytes from `data` on, of which `size` belong to the buffer.
pub record MemReadBuffer : Type 0 where
  pub offset : ℕ
  pub content : Bytes
  pub size : ℕ

-- `Writer`: the bytes are inserted at the offset.
unfoldable pub writer : Bytes → Buffer → Buffer
writer received out = record {
  offset = out.offset + length received;
  content = take out.offset out.content ++ (received ++ drop out.offset out.content);
}

-- `HeaderWriter`.
unfoldable pub header_writer : Bytes → Bytes → Bytes
header_writer received content = content ++ received

-- `Reader`.
pub reader : ℕ → Buffer → Bytes × Buffer
reader room b =
    if leb (length b.content) b.offset
    then ([], b)
    else let e = min (b.offset + room) (length b.content) in
      (
        take (e - b.offset) (drop b.offset b.content),
        record { offset = b.offset + (e - b.offset); content = b.content },
      )

-- `MemReader`.
unfoldable pub mem_reader : ℕ → MemReadBuffer → Bytes × MemReadBuffer
mem_reader room b =
    if leb b.size b.offset
    then ([], b)
    else let e = min (b.offset + room) b.size in
      (
        take (e - b.offset) (drop b.offset b.content),
        record { offset = b.offset + (e - b.offset); content = b.content; size = b.size },
      )

-- `ReadFile`, of a file that is opened and moved to a part of `size` bytes: `unread` is what `fread`
-- has before it. At the end of the file it reads less.
pub record FileInfo : Type 0 where
  pub unread : Bytes
  pub size : ℕ
  pub offset : ℕ

unfoldable pub read_file : ℕ → FileInfo → Bytes × FileInfo
read_file room fi =
    let bytes = min room (fi.size - fi.offset) in
    let read = take bytes fi.unread in
    (
      read,
      record { unread = drop bytes fi.unread; size = fi.size; offset = fi.offset + length read },
    )

-- What a call of a reader adds to the bytes that are sent: libcurl stops when nothing is read.
unfoldable pub send : Bytes → Bytes → Bytes
send [] rest = []
send (c ∷ s) rest = (c ∷ s) ++ rest

-- What libcurl sends, when it calls a reader with room for these blocks.
unfoldable pub drain : {B : Type 0} → (ℕ → B → Bytes × B) → List ℕ → B → Bytes
drain read [] b = []
drain read (room ∷ rooms) b = send (read room b).0 (drain read rooms (read room b).1)

-- What libcurl hands to a writer, block by block.
unfoldable pub write_all : List Bytes → Buffer → Buffer
write_all [] out = out
write_all (block ∷ blocks) out = write_all blocks (writer block out)
