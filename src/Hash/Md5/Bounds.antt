-- ===== src/Hash/Md5/Bounds.antt =====
-- What `md5_stream` reads.
use s3client.Common.{
  ℕ, zero, suc, ◌+◌, ◌*◌, ◌/◌, ◌%◌, ◌≤◌, ◌<◌, Bytes, none, some, true, leb, ltb, length, take, drop,
  ◌≡◌, ◌↔◌, refl, arith, Bool-cases, inl, inr,
}
use s3client.Hash.Md5.{Words4, md5_loop, md5_stream, md5_block, block_at}

abbrev pub whole_blocks : ℕ → ℕ
whole_blocks size = (size + 63) / 64 * 64

module _ (input : Bytes) (size : ℕ) where
  block_inside :
      (offset : ℕ)
      → offset % 64 ≡ 0
      → offset < size
      → whole_blocks size ≤ length input
      → leb (offset + 64) (length input) ≡ true
  block_inside offset aligned before inside =
      let room : offset + 64 ≤ length input = omega arith in ground arith

  reads_inside :
      (fuel offset : ℕ) (hash : Words4)
      → 0 < fuel
      → offset % 64 ≡ 0
      → size < offset + fuel
      → whole_blocks size ≤ length input
      → (h : Words4) × (md5_loop fuel offset hash input size ≡ some h)
  unfolding md5_loop block_at
  reads_inside zero offset hash some_fuel aligned enough inside = absurd (omega arith)
  reads_inside (suc fuel) offset hash some_fuel aligned enough inside =
      elim (Bool-cases (ltb offset size)) [
        | inr e ↦ (hash, rw (md5_loop, e) refl)
        | inl e ↦
            let before : offset < size = ground arith in
            rw (md5_loop, e, block_inside offset aligned before inside)
              (reads_inside fuel (offset + 64) (md5_block hash (take 64 (drop offset input)))
                (omega arith) (omega arith) (omega arith) inside)
      ]

  reads_beyond :
      (fuel offset : ℕ) (hash : Words4)
      → offset % 64 ≡ 0
      → offset ≤ length input
      → length input < whole_blocks size
      → md5_loop fuel offset hash input size ≡ none
  unfolding md5_loop block_at
  reads_beyond zero offset hash aligned within short = refl
  reads_beyond (suc fuel) offset hash aligned within short =
      let before : offset < size = omega arith in
      let e : ltb offset size ≡ true = ground arith in
      elim (Bool-cases (leb (offset + 64) (length input))) [
        | inr over ↦ rw (md5_loop, e, over) refl
        | inl fits ↦
            let next : offset + 64 ≤ length input = ground arith in
            rw (md5_loop, e, fits)
              (reads_beyond fuel (offset + 64) (md5_block hash (take 64 (drop offset input)))
                (omega arith) next short)
      ]

-- The loop of `md5_stream` ends, and reads beyond the buffer if and only if the buffer is shorter
-- than the length rounded up to whole blocks: otherwise it returns a hash.
pub md5_stream_bounds :
    (hash : Words4) (input : Bytes) (size : ℕ)
    → (md5_stream hash input size ≡ none) ↔ (length input < whole_blocks size)
unfolding md5_stream
md5_stream_bounds hash input size = (
  λ h. elim (Bool-cases (leb (whole_blocks size) (length input))) [
    | inr short ↦ ground arith
    | inl enough ↦
        let room : whole_blocks size ≤ length input = ground arith in
        let (r, e) =
          reads_inside input size (suc size) 0 hash (omega arith) (omega arith) (omega arith)
            room in
        cc (h, e)
  ],
  reads_beyond input size (suc size) 0 hash (omega arith) (omega arith),
)
