-- ===== src/Apps/Endpoints.antt =====
-- The file of endpoints: addresses, remarks and empty lines.
use s3client.Common.{List, [], ◌∷◌, ◌++◌, Bytes, true, false, ◌==◌, ◌≡◌, refl, ap, All, arith}
use s3client.Sign.{is_empty}
use s3client.Text.Toml.{trim_line, without_blanks, lines_from, last_line}
use s3client.Text.Headers.{run_of}
use s3client.Text.Toml.Lines.{is_visible, Passes, lines-line, visible_line, trim_line-All}
use s3client.Apps.{starts_comment, endpoint_lines}

pub data EndpointLine : Type 0 where
  address remark : Bytes → EndpointLine
  empty_line : EndpointLine

abbrev pub line_text : EndpointLine → Bytes
line_text (address a) = a
line_text (remark t) = 35 ∷ t
line_text empty_line = []

unfoldable pub endpoints_text : List EndpointLine → Bytes
endpoints_text [] = []
endpoints_text (l ∷ ls) = line_text l ++ 10 ∷ endpoints_text ls

unfoldable pub addresses : List EndpointLine → List Bytes
addresses [] = []
addresses (address a ∷ ls) = a ∷ addresses ls
addresses (remark t ∷ ls) = addresses ls
addresses (empty_line ∷ ls) = addresses ls

abbrev pub IsLine : EndpointLine → Type 0
IsLine (address a) = Passes is_visible a
IsLine (remark t) = All (λ c. (c == 10) ≡ false) t
IsLine empty_line = Unit

All-visible : (a : Bytes) → All (λ c. is_visible c ≡ true) a → All (λ c. (c == 10) ≡ false) a
All-visible [] h = tt
All-visible (c ∷ a) (h, hs) = (visible_line c h, All-visible a hs)

line_whole : (l : EndpointLine) → IsLine l → All (λ c. (c == 10) ≡ false) (line_text l)
unfolding Passes
line_whole (address a) (h, hs) = All-visible a hs
line_whole (remark t) h = (refl, h)
line_whole empty_line h = tt

no_comment : (a : Bytes) → All (λ c. is_visible c ≡ true) a → starts_comment a ≡ false
unfolding starts_comment is_visible
no_comment [] h = refl
no_comment (c ∷ a) (h, hs) = ground arith

kept :
    (l : EndpointLine) (ls : List EndpointLine) (lines : List Bytes)
    → IsLine l
    → endpoint_lines lines ≡ addresses ls
    → endpoint_lines (line_text l ∷ lines) ≡ addresses (l ∷ ls)
unfolding endpoint_lines addresses Passes is_empty
kept (address a) ls lines (h, hs) e =
    rw (trim_line-All a hs, h, no_comment a hs) (ap (λ t. a ∷ t) e)
kept (remark t) ls lines h e = unfold trim_line run_of without_blanks in e
kept empty_line ls lines h e = unfold trim_line run_of without_blanks in e

-- The programs read the addresses of a file of endpoints, in order, from one line each, past remarks that
-- start at the first letter of their line and past empty lines, if the addresses have neither blanks
-- nor `#` and are not empty.
pub endpoint_lines-addresses :
    (ls : List EndpointLine)
    → All IsLine ls
    → endpoint_lines (lines_from [] (endpoints_text ls)) ≡ addresses ls
unfolding endpoints_text
endpoint_lines-addresses [] h = unfold lines_from last_line endpoint_lines addresses in refl
endpoint_lines-addresses (l ∷ ls) (h, hs) =
    rw (lines-line (line_text l) (endpoints_text ls) [] (line_whole l h))
      (kept l ls _ h (endpoint_lines-addresses ls hs))
