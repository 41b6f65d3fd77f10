-- ===== src/Http/Buffers/Drained.antt =====
-- The readers hand over exactly their bytes, and the writer keeps all that it receives, whatever the
-- sizes of the blocks are.
use s3client.Common.{
  ℕ, zero, suc, ◌+◌, ◌-◌, ◌≤◌, ◌<◌, List, [], ◌∷◌, ◌++◌, Bytes, true, false, leb, ltb, Bool-cases,
  min, length, take, drop, ◌≡◌, refl, ap, ◌∙◌, arith, All, append-nil, append_assoc, length-append,
  take_whole, length-take, length-drop, drop-drop,
}
use mathlib.Core.Logic.{◌⊎◌, inl, inr}
use s3client.Http.Buffers.{writer, mem_reader, drain, send, write_all}

-- There is room in each block.
abbrev pub HaveRoom : List ℕ → Type 0
HaveRoom = All (λ room. 0 < room)

take-nil : (m : ℕ) → take {A = ℕ} m [] ≡ []
take-nil zero = refl
take-nil (suc m) = refl

take-take-drop : (n m : ℕ) (xs : Bytes) → take n xs ++ take m (drop n xs) ≡ take (n + m) xs
take-take-drop zero m xs = let e : m ≡ zero + m = omega arith in ap (λ (k : ℕ). take k xs) e
take-take-drop (suc n) m [] =
    let next : suc n + m ≡ suc (n + m) = omega arith in rw next (take-nil m)
take-take-drop (suc n) m (x ∷ xs) =
    let next : suc n + m ≡ suc (n + m) = omega arith in
    rw next (ap (λ (t : Bytes). x ∷ t) (take-take-drop n m xs))

send_some : (got rest : Bytes) → 0 < length got → send got rest ≡ got ++ rest
unfolding send
send_some [] rest h = absurd (omega arith)
send_some (c ∷ s) rest h = refl

mem_reader_step :
    (room offset size : ℕ) (content : Bytes)
    → offset < size
    → mem_reader room (record { offset = offset; content = content; size = size }) ≡ (
      take (min room (size - offset)) (drop offset content),
      record { offset = offset + min room (size - offset); content = content; size = size },
    )
unfolding mem_reader
mem_reader_step room offset size content h =
    let more : leb size offset ≡ false = ground arith in
    let count : min (offset + room) size - offset ≡ min room (size - offset) = omega arith in
    rw (more, count) refl

mem_reader_end :
    (room offset size : ℕ) (content : Bytes)
    → size ≤ offset
    → mem_reader room (record { offset = offset; content = content; size = size })
      ≡ ([], record { offset = offset; content = content; size = size })
unfolding mem_reader
mem_reader_end room offset size content h =
    let done : leb size offset ≡ true = ground arith in rw done refl

take_none : (k : ℕ) (xs : Bytes) → k ≡ 0 → [] ≡ take k xs
take_none k xs h = rw h refl

split_at : (a b : ℕ) → (a < b) ⊎ (b ≤ a)
split_at a b = elim (Bool-cases (ltb a b)) [
  | inl e ↦ inl (ground arith)
  | inr e ↦ inr (ground arith)
]

drained :
    (rooms : List ℕ) (offset size : ℕ) (content : Bytes)
    → HaveRoom rooms
    → size ≤ length content
    → size ≤ offset + length rooms
    → drain mem_reader rooms (record { offset = offset; content = content; size = size })
      ≡ take (size - offset) (drop offset content)
unfolding drain send
drained [] offset size content h fits enough = take_none _ _ (omega arith)
drained (room ∷ rooms) offset size content (h, hs) fits enough = elim (split_at offset size) [
  | inr past ↦
      rw (drain, mem_reader_end room offset size content past) (take_none _ _ (omega arith))
  | inl before ↦
      let n = min room (size - offset) in
      let width : 0 < length (take n (drop offset content)) =
        omega (arith, length-take n (drop offset content), length-drop offset content) in
      let total : n + (size - (offset + n)) ≡ size - offset = omega arith in
      rw (drain, mem_reader_step room offset size content before)
        (send_some (take n (drop offset content)) _ width
          ∙ rw
              (
                drained rooms (offset + n) size content hs fits (omega arith),
                ← drop-drop,
                take-take-drop,
                total,
              )
              refl)
]

-- libcurl sends exactly the first `size` bytes of a memory buffer, each once and in order, whatever
-- the sizes of the blocks that it reads, if each has room and they are at least as many as the bytes.
pub mem_reader_drains :
    (rooms : List ℕ) (size : ℕ) (content : Bytes)
    → HaveRoom rooms
    → size ≤ length content
    → size ≤ length rooms
    → drain mem_reader rooms (record { offset = 0; content = content; size = size })
      ≡ take size content
mem_reader_drains rooms size content h fits enough =
    let whole : size - 0 ≡ size = omega arith in
    rw (drained rooms 0 size content h fits (omega arith), whole) refl

drop_all : (xs : Bytes) → drop (length xs) xs ≡ []
drop_all [] = refl
drop_all (x ∷ xs) = drop_all xs

pub joined_blocks : List Bytes → Bytes
joined_blocks [] = []
joined_blocks (block ∷ blocks) = block ++ joined_blocks blocks

write_step :
    (block content : Bytes)
    → writer block (record { offset = length content; content = content })
      ≡ record { offset = length (content ++ block); content = content ++ block }
unfolding writer
write_step block content =
    rw (length-append, take_whole content, drop_all content, append-nil block) refl

-- The response buffer holds all that libcurl received, behind what it held, and stays ready for more:
-- its offset is its length.
pub writer_keeps :
    (blocks : List Bytes) (content : Bytes)
    → write_all blocks (record { offset = length content; content = content }) ≡ record {
      offset = length (content ++ joined_blocks blocks);
      content = content ++ joined_blocks blocks;
    }
unfolding write_all joined_blocks
writer_keeps [] content = rw (append-nil content) refl
writer_keeps (block ∷ blocks) content =
    rw (write_all, write_step block content, writer_keeps blocks (content ++ block), append_assoc)
      refl
