-- ===== src/Hash/Utility/Padding.antt =====
-- `next_div_by` and `alloc_padded` of lib/hash/utility.h and utility.cpp.
use native.Mathlib.Nat.{mod-add-div', mul-mod_left, mod-lt}
use s3client.Hash.Utility.{
  next_div_by, next_div_by_loop, zeros, alloc_padded, copy_at, bytes_of, to_big_endian,
}
use s3client.Common.{
  ℕ, zero, suc, ◌+◌, ◌-◌, ◌*◌, ◌/◌, ◌%◌, ◌^◌, ◌≤◌, ◌<◌, [], ◌∷◌, ◌++◌, Bytes, some, ◌≡◌, refl, ap,
  arith, length, Bool-cases, inl, inr, ◌==◌, ◌∙◌, false, sym, drop, length-append, drop-drop,
  drop-append, take-append, leb, true, length-replicate, append_assoc, append-nil,
}
use mathlib.Core.List.{reverse}
use s3client.Hash.Utility.Endian.{bytes_of-to_big_endian}
use s3client.Common.Word.{u64}

not_a_multiple : (n j d : ℕ) → (n % d == 0) ≡ false → (n + j) % d ≡ 0 → 0 < j
not_a_multiple n zero d miss hit =
    let e : n + 0 ≡ n = omega arith in ground (arith, ap (λ (t : ℕ). t % d) e)
not_a_multiple n (suc j) d miss hit = omega arith

loop_step :
    (fuel n d : ℕ)
    → (n % d == 0) ≡ false
    → n + 1 < 2 ^ 64
    → next_div_by_loop (suc fuel) n d ≡ next_div_by_loop fuel (n + 1) d
unfolding next_div_by_loop
loop_step fuel n d e h = let wrap : u64 (n + 1) ≡ n + 1 = omega arith in rw (e, wrap)

loop_finds :
    (fuel j n d : ℕ)
    → j < fuel
    → (n + j) % d ≡ 0
    → n + j < 2 ^ 64
    → (m : ℕ) × (next_div_by_loop fuel n d ≡ some m) × (m % d ≡ 0) × (n ≤ m) × (m ≤ n + j)
unfolding next_div_by_loop
loop_finds zero j n d h hit fits = absurd (omega arith)
loop_finds (suc fuel) j n d h hit fits = elim (Bool-cases (n % d == 0)) [
  | inl e ↦ (n, rw e refl, ground arith, omega arith, omega arith)
  | inr e ↦
      let pos = not_a_multiple n j d e hit in
      let same : n + j ≡ n + 1 + (j - 1) = omega arith in
      let (m, found, multiple, low, high) =
        loop_finds fuel (j - 1) (n + 1) d (omega arith) (rw same at hit) (omega arith) in
      (m, loop_step fuel n d e (omega arith) ∙ found, multiple, omega arith, omega arith)
]

distance : (n d : ℕ) → 0 < d → (j : ℕ) × (j < d) × ((n + j) % d ≡ 0)
distance n d h =
    let r : ℕ = n % d in
    let q : ℕ = n / d in
    let split : r + q * d ≡ n = mod-add-div' n d in
    let below : r < d = mod-lt n h in
    elim (Bool-cases (r == 0)) [
      | inl e ↦ (0, h, let same : n + 0 ≡ n = omega arith in rw same (ground arith))
      | inr e ↦
          let pos : 0 < r = ground arith in
          let next : n + (d - r) ≡ (q + 1) * d = omega arith in
          (d - r, omega arith, ap (λ (t : ℕ). t % d) next ∙ mul-mod_left (q + 1) d)
    ]

-- For a positive `d`, with `n + d` within 64 bits, `next_div_by` ends, and gives the least multiple of
-- `d` that is not below `n`.
pub next_div_by_least :
    (n d : ℕ)
    → 0 < d
    → n + d ≤ 2 ^ 64
    → (m : ℕ) × (next_div_by n d ≡ some m) × (m % d ≡ 0) × (n ≤ m) × (m < n + d)
unfolding next_div_by
next_div_by_least n d pos fits =
    let (j, below, hit) = distance n d pos in
    let (m, e, multiple, low, high) = loop_finds d j n d below hit (omega arith) in
    (m, e, multiple, low, omega arith)

le→leb : (a b : ℕ) → a ≤ b → leb a b ≡ true
le→leb a b h = ground arith

pub copy_at_middle :
    (xs ys zs src : Bytes)
    → length src ≡ length ys
    → copy_at (xs ++ (ys ++ zs)) (length xs) src ≡ some (xs ++ (src ++ zs))
unfolding copy_at
copy_at_middle xs ys zs src e =
    let fits : length xs + length src ≤ length (xs ++ (ys ++ zs)) =
      omega (arith, length-append {0} xs (ys ++ zs), length-append {0} ys zs) in
    let rest : drop (length xs + length src) (xs ++ (ys ++ zs)) ≡ zs =
      sym (drop-drop (length src) (length xs) (xs ++ (ys ++ zs)))
      ∙ ap (drop (length src)) (drop-append xs (ys ++ zs))
      ∙ rw e (drop-append ys zs) in
    rw (le→leb _ _ fits, take-append xs (ys ++ zs), rest)

pub length-zeros : (n : ℕ) → length (zeros n) ≡ n
length-zeros n = length-replicate n 0

pub zeros-add : (n m : ℕ) → zeros (n + m) ≡ zeros n ++ zeros m
zeros-add zero m = let e : 0 + m ≡ m = omega arith in ap (λ (t : ℕ). zeros t) e
zeros-add (suc n) m =
    let e : suc n + m ≡ suc (n + m) = omega arith in
    ap (λ (t : ℕ). zeros t) e ∙ ap (λ t. 0 ∷ t) (zeros-add n m)

-- The two writes behind `front` into a cleared buffer: the one bit, and the length in bits.
pub first_write :
    (front : Bytes) (z : ℕ)
    → copy_at (front ++ zeros (1 + (z + 8))) (length front) (0x80 ∷ [])
      ≡ some ((front ++ (0x80 ∷ zeros z)) ++ (zeros 8 ++ []))
first_write front z =
    let cleared : zeros (1 + (z + 8)) ≡ (0 ∷ []) ++ (zeros z ++ zeros 8) =
      zeros-add 1 (z + 8) ∙ ap (λ t. 0 ∷ t) (zeros-add z 8) in
    let regroup : front ++ ((0x80 ∷ []) ++ (zeros z ++ zeros 8))
        ≡ (front ++ (0x80 ∷ zeros z)) ++ (zeros 8 ++ []) =
      simp append_assoc in
    rw cleared (copy_at_middle front (0 ∷ []) (zeros z ++ zeros 8) (0x80 ∷ []) refl)
    ∙ ap some regroup

pub second_write :
    (front : Bytes) (size z : ℕ) (last : Bytes)
    → length front ≡ size
    → length last ≡ 8
    → copy_at ((front ++ (0x80 ∷ zeros z)) ++ (zeros 8 ++ [])) (size + (1 + (z + 8)) - 8) last
      ≡ some (front ++ (0x80 ∷ (zeros z ++ last)))
second_write front size z last width e =
    let written : Bytes = front ++ (0x80 ∷ zeros z) in
    let place : length written ≡ size + (1 + (z + 8)) - 8 =
      omega (arith, length-append {A = ℕ} front (0x80 ∷ zeros z), length-zeros z) in
    let regroup : written ++ (last ++ []) ≡ front ++ (0x80 ∷ (zeros z ++ last)) =
      simp (append_assoc, append-nil) in
    rw (← place) (copy_at_middle written (zeros 8) [] last e ∙ ap some regroup)

-- The length in bits, as it is written.
pub length_field :
    (n : ℕ)
    → 8 * n < 2 ^ 64
    → bytes_of 8 (to_big_endian (u64 (8 * n))) ≡ reverse (bytes_of 8 (8 * n))
length_field n h =
    let bits : u64 (8 * n) ≡ 8 * n = omega arith in rw bits (bytes_of-to_big_endian (8 * n) h)

layout_of :
    (size sz z : ℕ)
    → 8 * size < 2 ^ 64
    → next_div_by (size + 1 + 8) 64 ≡ some sz
    → sz ≡ size + (1 + (z + 8))
    → alloc_padded size ≡ some (zeros size ++ (0x80 ∷ (zeros z ++ reverse (bytes_of 8 (8 * size)))))
unfolding alloc_padded
layout_of size sz z h found cut =
    let wrap : u64 (size + 1 + 8) ≡ size + 1 + 8 = omega arith in
    let write : copy_at (zeros (size + (1 + (z + 8)))) size (0x80 ∷ [])
        ≡ some ((zeros size ++ (0x80 ∷ zeros z)) ++ (zeros 8 ++ [])) =
      rw (zeros-add size (1 + (z + 8))) (rw (length-zeros size) at (first_write (zeros size) z)) in
    rw (wrap, found, cut, write, length_field size h)
      (second_write (zeros size) size z _ (length-zeros size) (unfold bytes_of in refl))

-- The buffer of `alloc_padded`: room for the message, a one bit, zero bytes and the length in bits,
-- in as few blocks of 64 bytes as hold them, for a length in bits below 2 ^ 64.
pub alloc_padded_layout :
    (size : ℕ)
    → 8 * size < 2 ^ 64
    → (z : ℕ) × (alloc_padded size
        ≡ some (zeros size ++ (0x80 ∷ (zeros z ++ reverse (bytes_of 8 (8 * size))))))
      × ((size + 1 + z + 8) % 64 ≡ 0)
      × (z < 64)
alloc_padded_layout size h =
    let (sz, found, multiple, low, high) =
      next_div_by_least (size + 1 + 8) 64 (omega arith) (omega arith) in
    (
      sz - 9 - size,
      layout_of size sz (sz - 9 - size) h found (omega arith),
      omega arith,
      omega arith,
    )
