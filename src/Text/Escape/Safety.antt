-- ===== src/Text/Escape/Safety.antt =====
-- What the escapes leave out of their output.
use erikslund_http_embedded.Prelude.{
  ℕ, Bytes, ◌≢◌, [], ◌∷◌, ◌++◌, arith, All, All-append, Bool, true, false, ◌==◌, if◌then◌else◌,
}
use erikslund_http_embedded.Text.Escape.{html_escape, html_escape_into, html_escape_byte}

-- A byte that opens nothing in a text or in a quoted attribute.
abbrev pub IsPlainText : ℕ → Type 0
IsPlainText c = (c ≢ b'<') × (c ≢ b'>') × (c ≢ b'"') × (c ≢ 0x27)

html_escape_byte-IsPlainText : (c : ℕ) → All IsPlainText (html_escape_byte c)
unfolding html_escape_byte
html_escape_byte-IsPlainText c = ground arith

html_escape_into-IsPlainText :
    (out input : Bytes) → All IsPlainText out → All IsPlainText (html_escape_into out input)
unfolding html_escape_into
html_escape_into-IsPlainText out [] v = v
html_escape_into-IsPlainText out (c ∷ input) v =
    html_escape_into-IsPlainText (out ++ html_escape_byte c) input
      (All-append IsPlainText out (html_escape_byte c) v (html_escape_byte-IsPlainText c))

-- No byte of an HTML-escaped text is "<", ">" or a quote of either kind.
pub html_escape-IsPlainText : (input : Bytes) → All IsPlainText (html_escape input)
unfolding html_escape
html_escape-IsPlainText input = html_escape_into-IsPlainText [] input tt

-- Whether what stands in front of a JSON string's closing quote, behind a backslash or not, would
-- close the string itself, or take the closing quote for its own.
unfoldable pub closes : Bool → Bytes → Bool
closes escaped [] = escaped
closes true (c ∷ s) = closes false s
closes false (c ∷ s) =
    let plain = closes false s in
    let escaped = closes true s in if c == b'"' then true else if c == b'\\' then escaped else plain
