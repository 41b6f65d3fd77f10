-- ===== src/Http/Uploads.antt =====
-- The uploads of lib/src/webclient.cpp: of bytes in memory, and of a file or a part of it.
use s3client.Common.{ℕ, Bytes, none, some, Bool, true, false, ◌==◌, if◌then◌else◌, codes}
use s3client.Http.Client.{
  memory, file_part, WebClient, Network, set_method, set_source, send_request,
}

module _ {W : Type 0} (net : Network W) where
  -- `UploadDataFromBuffer`.
  unfoldable pub upload_data_from_buffer : Bytes → ℕ → ℕ → WebClient → W → Bool × (WebClient × W)
  upload_data_from_buffer content offset size c w =
      if size == 0
      then (true, (c, w))
      else send_request net
          (set_method (codes "PUT") size
            (set_source (memory (record { offset = offset; content = content; size = size })) c))
          w

  -- The uploads of a file: false is an exception, of a file that is empty or does not open, or of a
  -- request that fails. A part is read by `ReadFile` or by `ReadFileUnbuffered`, the same bytes.
  unfoldable pub upload_source : Bytes → ℕ → ℕ → WebClient → W → Bool × (WebClient × W)
  upload_source name offset size c w =
      if net.can_open w name
      then send_request net
          (set_method (codes "PUT") size (set_source (file_part name offset size) c)) w
      else (false, (c, w))

  -- `UploadFile` of a whole file, and of a part.
  unfoldable pub upload_file_whole : Bytes → ℕ → WebClient → W → Bool × (WebClient × W)
  upload_file_whole name fsize c w =
      upload_source name 0 (if fsize == 0 then net.file_size w name else fsize) c w

  unfoldable pub upload_file_at : Bytes → ℕ → ℕ → WebClient → W → Bool × (WebClient × W)
  upload_file_at name offset size c w =
      let size' = if size == 0 then net.file_size w name else size in
      if size' == 0 then (false, (c, w)) else upload_source name offset size' c w

  -- `UploadFileUnbuffered`.
  unfoldable pub upload_file_unbuffered : Bytes → ℕ → ℕ → WebClient → W → Bool × (WebClient × W)
  upload_file_unbuffered name offset size c w = upload_source name offset size c w

  -- `UploadFileMM`: the bytes of the mapped part; false is an exception.
  unfoldable pub upload_file_mm : Bytes → ℕ → ℕ → WebClient → W → Bool × (WebClient × W)
  upload_file_mm name offset size c w = elim (net.map_file w name offset size) [
    | none ↦ (false, (c, w))
    | some content ↦ upload_data_from_buffer content 0 size c w
  ]
