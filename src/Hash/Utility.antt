-- ===== src/Hash/Utility.antt =====
-- lib/hash/utility.h and utility.cpp: byte order, rotations, the padded buffer. The names are the
-- source's in this spelling. A `uint32_t` or `uint64_t` is a number with the casts written out; the
-- host is little-endian, as the source assumes.
pub mod Endian
pub mod Rotate
pub mod Padding
use mathlib.Core.Logic.{dite}
use mathlib.Core.WellFounded.{Acc, WellFounded}
use native.Mathlib.Decide.{dec_lt}
use s3client.Common.{
  ℕ, zero, suc, ◌+◌, ◌-◌, ◌*◌, ◌/◌, ◌%◌, ◌^◌, ◌<◌, ◌≡◌, refl, bit_and, bit_or, List, [], ◌∷◌, ◌++◌,
  Bytes, Option, none, some, ◌==◌, if◌then◌else◌, ltb, replicate, set, length, take, drop, leb, map,
}
use s3client.Common.Word.{u32, u64, ◌<<<◌, ◌>>>◌}

unfoldable pub to_big_endian : ℕ → ℕ
to_big_endian n =
    let b0 = u64 (bit_and n 0x00000000000000ff <<< 56) in
    let b1 = u64 (bit_and n 0x000000000000ff00 <<< 40) in
    let b2 = u64 (bit_and n 0x0000000000ff0000 <<< 24) in
    let b3 = u64 (bit_and n 0x00000000ff000000 <<< 8) in
    let b4 = bit_and n 0x000000ff00000000 >>> 8 in
    let b5 = bit_and n 0x0000ff0000000000 >>> 24 in
    let b6 = bit_and n 0x00ff000000000000 >>> 40 in
    let b7 = bit_and n 0xff00000000000000 >>> 56 in
    bit_or (bit_or (bit_or (bit_or (bit_or (bit_or (bit_or b0 b1) b2) b3) b4) b5) b6) b7

-- The shifts are done on `uint32_t` operands.
unfoldable pub to_little_endian : ℕ → ℕ
to_little_endian n =
    let b0 = bit_and n 0xff000000 >>> 24 in
    let b1 = bit_and n 0x00ff0000 >>> 8 in
    let b2 = u32 (bit_and n 0x0000ff00 <<< 8) in
    let b3 = u32 (bit_and n 0x000000ff <<< 24) in bit_or (bit_or (bit_or b0 b1) b2) b3

-- The bytes in memory of a `uint32_t` and of a `uint64_t`.
unfoldable pub bytes_of : ℕ → ℕ → Bytes
bytes_of zero n = []
bytes_of (suc k) n = n % 256 ∷ bytes_of k (n / 256)

-- The loop `for (; n % d; n++);` with the rounds left: `n % d` steps are never more than `d`.
next_div_by_loop : ℕ → ℕ → ℕ → Option ℕ
next_div_by_loop zero n d = none
next_div_by_loop (suc fuel) n d =
    let rest = next_div_by_loop fuel (u64 (n + 1)) d in if n % d == 0 then some n else rest

unfoldable pub next_div_by : ℕ → ℕ → Option ℕ
unfolding next_div_by_loop
next_div_by n d = next_div_by_loop d n d

unfoldable pub right_rotate : ℕ → ℕ → ℕ
right_rotate x n = bit_or (x >>> n) (u32 (x <<< (32 - n)))

unfoldable pub left_rotate : ℕ → ℕ → ℕ
left_rotate x n = bit_or (u32 (x <<< n)) (x >>> (32 - n))

unfoldable pub lshift : ℕ → ℕ → ℕ
lshift n nshifts = u32 (n <<< nshifts)

-- `memcpy(&buf[at], src, …)` into a buffer; `none` is a write out of bounds.
unfoldable pub copy_at : Bytes → ℕ → Bytes → Option Bytes
copy_at buf at src =
    if leb (at + length src) (length buf)
    then some (take at buf ++ (src ++ drop (at + length src) buf))
    else none

-- `calloc` or `memset` to zero.
abbrev pub zeros : ℕ → Bytes
zeros n = replicate n 0

infixl 5 ◌>>=◌
abbrev pub ◌>>=◌ {ℓ κ} : {A : Type ℓ} {B : Type κ} → Option A → (A → Option B) → Option B
none >>= f = none
some a >>= f = f a

-- What a chain of options that returns has returned first.
pub through :
    {A B : Type 0} (o : Option A) (f : A → Option B) {b : B}
    → o >>= f ≡ some b
    → (a : A) × (o ≡ some a) × (f a ≡ some b)
through none f e = absurd (cc e)
through (some a) f e = (a, refl, e)

-- The buffer and its size `*sz`. A fresh or cleared buffer of that many bytes stands for both
-- branches on `tmpbuf`.
unfoldable pub alloc_padded : ℕ → Option Bytes
alloc_padded size = do
  sz ← next_div_by (u64 (size + 1 + 8)) 64
  buf ← copy_at (zeros sz) size (0x80 ∷ [])
  copy_at buf (sz - 8) (bytes_of 8 (to_big_endian (u64 (8 * size))))
