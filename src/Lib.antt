-- ===== src/Lib.antt =====
-- Models of s3client, a C++ client of the S3 protocol, and theorems about them.
--
-- The program has a hash library (lib/hash), which the signing of requests uses; the operations
-- of the protocol and their signing, over an HTTP client (lib/src, lib/src/api); and a parallel
-- transfer of files in parts (lib/src/upload.cpp, lib/src/download.cpp), which runs a number of
-- jobs, each of which sends or fetches its share of the data in parts and retries what fails.
--
-- * Hash/Utility.antt is lib/hash/utility.h and utility.cpp: byte order, rotations, `next_div_by`
--   and `alloc_padded`. A word is a natural number and keeps its modulus (Common/Word.antt);
--   memory is a list of bytes, and a write or a read beyond its end gives `none`.
-- * Hash/Sha256.antt is lib/hash/sha256.cpp and sha256.h: one function for each loop and each
--   round. Hash/Sha256/Reference.antt is the standard, FIPS 180-4, with which it is compared.
-- * Hash/Hmac.antt is lib/hash/hmac256.cpp, and Hash/Hmac/Reference.antt is RFC 2104.
-- * Hash/Md5.antt is the hash of blocks and buffers in lib/hash/md5.cpp and md5.h.
-- * Hash/File.antt is the loop over a file that `sha256_file` and `md5_file` share, over the bytes
--   of the file, with Hash/Sha256/File.antt and Hash/Md5/File.antt for the two.
-- * Text/Url.antt is the percent encoding of lib/src/url_utility.cpp, and Text/Params.antt its
--   parameter, header and metadata texts; Text/Split.antt is `Split` of lib/include/utility.h,
--   and Text/Ranges.antt its `SplitIterator` and `SplitRange`.
--   Text/Headers.antt is lib/src/response_parser.cpp, with its regular expressions written out as
--   functions, as are those of `ParseTomlFile` of lib/src/utility.cpp in Text/Toml.antt.
-- * Sign.antt and Sign/Request.antt are lib/src/aws_sign.cpp. A `std::map` is a list in the order
--   of its keys (Common/Dict.antt). The clock is a parameter, and so
--   is the parser of endpoints, which is `ParseURL` (Sign/Endpoint.antt) where it does not throw.
-- * Client.antt is the validation of arguments and bucket names in lib/src/s3-client.cpp, and
--   Client/Request.antt its `SendS3Request` and `GetS3Credentials`.
-- * Xml/Dom.antt is what the program uses of tinyxml2: a document is a list of nodes, the library
--   is the record `Dom`, and `IsDom` says that it hands the elements to a visitor in their order,
--   as its documentation promises. Xml/Path.antt and Xml/Visitors.antt are lib/src/xml_path.cpp,
--   Xml/Records.antt is its records with `XMLIStream` of lib/include/xmlstreams.h, and
--   Xml/Responses.antt is the parsers of lib/src/api/xml_parser.cpp.
-- * Xml/Builder.antt is what the program builds documents of tinyxml2 with, and `IsBuilder` what
--   is documented of it, which a builder of paths fulfils (Xml/Builder/Spine.antt).
--   Xml/Stream.antt is `XMLOStream` of lib/include/xmlstreams.h, Xml/ToText.antt the printing of
--   documents in lib/src/xml_path.cpp, and Xml/Requests.antt the documents that
--   lib/src/api/xml_parser.cpp generates.
-- * Http/Buffers.antt is the callbacks of lib/src/webclient.cpp that libcurl reads from and
--   writes to, and Http/Client.antt and Http/Uploads.antt the rest of it: the state of a
--   `WebClient` is the options it sets in its handle and its own members. libcurl and the file
--   system are the record `Network`.
-- * Api.antt is `S3Api` of lib/include/s3-api.h: an action takes an instance, and gives a result
--   or an error and the instance that it leaves. Api/Send.antt is `Config`, `Send` and
--   `HandleError`; Api/Objects.antt, Api/Buckets.antt and Api/Multipart.antt are the files of the
--   same names in lib/src/api (object.cpp, bucket.cpp, multipart_upload.cpp), and
--   Api/Documents.antt the requests of these files that send a generated document.
-- * Transfer/Session.antt is what the transfers pass on: the outside world and the counter
--   `retriesG`, and the `int` bounds of a job with the number of parts that they leave it. The
--   calls of `S3Api`, the file system and the random choice of an endpoint are the record `Api`,
--   a parameter of the model: a theorem that needs more of them states it. A division by zero, an
--   `int` that overflows and a read beyond a buffer are the error `crash`.
-- * Transfer/Plan.antt is the arithmetic of the parts on its own, in `size_t` behind these bounds.
-- * Transfer/Upload.antt is lib/src/upload.cpp, and Transfer/Download.antt is
--   lib/src/download.cpp, from `DoUploadPart` and `DownloadPart` up to `Upload` and `Download`.
-- * Transfer/Interleaved.antt is the jobs of an upload as `launch::async` runs them, as a relation
--   of steps: each job by its own etags and parts, and one counter of retries for all.
-- * Apps.antt is the programs of apps/, each in the module named for what it does: Apps/Upload.antt
--   (parallel_upload.cpp), Apps/Download.antt (parallel_download.cpp), Apps/Request.antt
--   (s3-client.cpp), Apps/Presign.antt (presign_url.cpp) and Apps/Keys.antt
--   (generate_s3_credentials.cpp). The option parser lyra is not part of the repository: what it
--   leaves of the command line is an argument. Standard error is not modelled.
--
-- Fuel: the loop of `next_div_by` has as many rounds as the divisor, which suffice since a
-- multiple is never further away. A retry loop has one round more than its maximum of retries
-- for uploads, and two for downloads: the theorems on their ends show that they never run out.
-- The loop of `md5_stream` has one round more than the bytes it covers, and `to_string` of a
-- number one more than the number, which has fewer digits. The loop over a file has one round
-- more than the bytes of the file, and that over a `SplitRange` two more than the text has
-- bytes: both are shown to suffice. `UploadPart` and `UploadFilePart` take their fuel as an
-- argument, since only the range of an `int` need bound their tries. All other loops count down.
--
-- Not modelled: the interleavings of the jobs of a download (they run in their order, as
-- `launch::deferred` runs them, and share `retriesG`), the clock, `CreatePath` in
-- a document (below an element it is Xml/Stream/Create.antt), tinyxml2 and libcurl themselves and
-- the setting up of the latter (setting an option is taken to succeed), and the trials in scratch.
pub mod Common
pub mod Hash
pub mod Transfer
pub mod Apps
pub mod Text
pub mod Sign
pub mod Client
pub mod Xml
pub mod Http
pub mod Api
