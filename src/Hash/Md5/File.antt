-- ===== src/Hash/Md5/File.antt =====
-- `md5_file` of lib/hash/md5.cpp. A file that does not open is `none`.
use s3client.Common.{suc, Bytes, Option, none, some, length}
use s3client.Hash.Utility.{bytes_of}
use s3client.Hash.File.{file_loop, buf_size}
use s3client.Hash.Md5.{Words4, md5_init, md5_stream}

-- The length in bits is written in the order of the machine.
pub md5_file : Option Bytes → Option Words4
md5_file none = none
md5_file (some file) =
    file_loop md5_stream (bytes_of 8) (suc (length file)) buf_size 0 md5_init file
