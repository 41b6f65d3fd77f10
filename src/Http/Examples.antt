-- ===== src/Http/Examples.antt =====
-- The theorems on the buffers at short blocks.
use s3client.Common.{List, [], ◌∷◌, Bytes, take, ◌≡◌, arith}
use s3client.Http.Buffers.{mem_reader, drain}
use s3client.Http.Buffers.Drained.{mem_reader_drains}

mem_reader_drains_example :
    drain mem_reader
      (2 ∷ 1 ∷ 3 ∷ [])
      (record { offset = 0; content = 7 ∷ 8 ∷ 9 ∷ 10 ∷ []; size = 3 })
    ≡ take 3 (7 ∷ 8 ∷ 9 ∷ 10 ∷ [])
mem_reader_drains_example =
    mem_reader_drains (2 ∷ 1 ∷ 3 ∷ []) 3 (7 ∷ 8 ∷ 9 ∷ 10 ∷ [])
      (omega arith, (omega arith, (omega arith, tt))) (omega arith) (omega arith)

abbrev held : Bytes
held = 1 ∷ 2 ∷ []

abbrev received : List Bytes
received = (3 ∷ 4 ∷ []) ∷ (5 ∷ []) ∷ []
