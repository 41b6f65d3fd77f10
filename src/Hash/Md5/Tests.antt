-- ===== src/Hash/Md5/Tests.antt =====
-- MD5 of the padded block of the empty text, and the bounds of a block.
use s3client.Common.{◌↔◌, ◌<◌, ◌∷◌, Bytes, some, none, length, replicate, ◌≡◌, refl}
use s3client.Hash.Utility.{left_rotate}
use s3client.Hash.Md5.{
  md5_init, md5, md5_stream, md5_loop, block_at, md5_block, md5_rounds, md5_round, round_mix,
  load_word,
}
use s3client.Hash.Md5.Bounds.{whole_blocks, md5_stream_bounds}

abbrev empty_block : Bytes
empty_block = 0x80 ∷ replicate 63 0

-- d41d8cd98f00b204e9800998ecf8427e, its words as a little-endian machine holds them.
md5_empty :
    md5 empty_block 64
    ≡ some (record { a = 0xd98c1dd4; b = 0x04b2008f; c = 0x980980e9; d = 0x7e42f8ec })
unfolding md5 md5_stream md5_loop block_at md5_block md5_rounds md5_round round_mix load_word
    left_rotate
md5_empty = refl

md5_stream_bounds_example :
    (md5_stream md5_init empty_block 65 ≡ none) ↔ (length empty_block < whole_blocks 65)
md5_stream_bounds_example = md5_stream_bounds md5_init empty_block 65
