-- ===== src/Compress.antt =====
-- src/compress.cpp, in a build with zlib: which bodies are compressed. What deflate makes of a body is
-- zlib's, a parameter; none is a failure.
use erikslund_http_embedded.Prelude.{
  ℕ, ◌-◌, Bool, true, false, not, ◌&&◌, ◌||◌, Option, none, some, List, [], ◌∷◌, ltb, leb,
  if◌then◌else◌, Bytes, codes, is_empty, cut, length, take, drop,
}
use erikslund_http_embedded.Text.Ascii.{equals_ignore_case}
use erikslund_http_embedded.Request.Chars.{trim_optional_whitespace}

abbrev pub minimum_compressible_body_bytes : ℕ
minimum_compressible_body_bytes = 1024

abbrev pub maximum_compressible_body_bytes : ℕ
maximum_compressible_body_bytes = 8388608

abbrev pub compressible_media_type_suffixes : List Bytes
compressible_media_type_suffixes = codes "+json" ∷ codes "+xml" ∷ []

abbrev pub compressible_media_types : List Bytes
compressible_media_types =
    codes "application/json"
    ∷ codes "application/javascript"
    ∷ codes "application/x-javascript"
    ∷ codes "application/xml"
    ∷ []

unfoldable pub starts_with_ignore_case : Bytes → Bytes → Bool
unfolding equals_ignore_case
starts_with_ignore_case text prefix =
    leb (length prefix) (length text) && equals_ignore_case (take (length prefix) text) prefix

unfoldable pub ends_with_ignore_case : Bytes → Bytes → Bool
unfolding equals_ignore_case
ends_with_ignore_case text suffix =
    leb (length suffix) (length text)
    && equals_ignore_case (drop (length text - length suffix) text) suffix

unfoldable pub media_type_of : Bytes → Bytes
unfolding cut trim_optional_whitespace
media_type_of content_type = trim_optional_whitespace (cut b';' content_type).0

unfoldable pub ends_with_some : List Bytes → Bytes → Bool
unfolding ends_with_ignore_case
ends_with_some [] media_type = false
ends_with_some (suffix ∷ suffixes) media_type =
    if ends_with_ignore_case media_type suffix then true else ends_with_some suffixes media_type

unfoldable pub equals_some : List Bytes → Bytes → Bool
unfolding equals_ignore_case
equals_some [] media_type = false
equals_some (candidate ∷ candidates) media_type =
    if equals_ignore_case media_type candidate then true else equals_some candidates media_type

unfoldable pub media_type_is_compressible : Bytes → Bool
unfolding media_type_of starts_with_ignore_case ends_with_some equals_some
media_type_is_compressible content_type =
    let media_type = media_type_of content_type in
    if is_empty media_type
    then false
    else if starts_with_ignore_case media_type (codes "text/")
    then true
    else if ends_with_some compressible_media_type_suffixes media_type
    then true
    else equals_some compressible_media_types media_type

abbrev pub size_is_out_of_range : ℕ → Bool
size_is_out_of_range bytes =
    ltb bytes minimum_compressible_body_bytes || ltb maximum_compressible_body_bytes bytes

unfoldable pub response_varies_on_accept_encoding : Bytes → Bytes → ℕ → Bool
unfolding media_type_is_compressible
response_varies_on_accept_encoding content_type declared_coding body_bytes =
    if not (is_empty declared_coding)
    then false
    else if size_is_out_of_range body_bytes
    then false
    else media_type_is_compressible content_type

module _ (deflate : Bytes → Option Bytes) where
  -- `none` is the answer false, with nothing in the output.
  unfoldable pub gzip_compress : Bytes → Option Bytes
  gzip_compress body = if size_is_out_of_range (length body) then none else elim (deflate body) [
    | none ↦ none
    | some out ↦ if leb (length body) (length out) then none else some out
  ]
