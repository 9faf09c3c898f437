-- ===== src/Tests/Texts.antt =====
-- Runs of the escapes and of conditional requests: src/text.cpp and src/conditional_request.cpp.
use erikslund_http_embedded.Prelude.{
  codes, ◌≡◌, refl, split, true, false, [], ◌∷◌, ◌++◌, bytes_eq, starts_with, cut, All, inl, inr,
  none, some, ◌<◌, ◌↔◌, arith, ◌≢◌, Some,
}
use erikslund_http_embedded.Text.Escape.{html_escape, json_escape, prometheus_label_escape}
use erikslund_http_embedded.Text.Escape.Safety.{html_escape-IsPlainText, IsPlainText}
use erikslund_http_embedded.Text.Decode.{url_decode, url_decode-WritesAll, WritesAll, next, nothing}
use erikslund_http_embedded.Conditional.{if_none_match_matches, if_none_match_matches_lem, NamesTag}
use erikslund_http_embedded.Request.Chars.{trim_optional_whitespace}
use erikslund_http_embedded.Text.Secrets.{
  constant_time_equals, constant_time_equals_iff, differences,
}

texts : Unit {0}
unfolding html_escape json_escape prometheus_label_escape if_none_match_matches bytes_eq starts_with
    cut trim_optional_whitespace
texts = tt

html_escape_example : All IsPlainText (html_escape (codes "<b>\"&"))
html_escape_example = html_escape-IsPlainText (codes "<b>\"&")

if_none_match_example :
    (if_none_match_matches (codes "\"a\", W/\"b\"") (codes "\"b\"") ≡ true)
    ↔ ((codes "\"b\"" ≢ []) × Some (NamesTag (codes "\"b\"")) (split b',' (codes "\"a\", W/\"b\"")))
if_none_match_example = if_none_match_matches_lem (codes "\"a\", W/\"b\"") (codes "\"b\"")

text_tests :
    (html_escape (codes "<b>&") ≡ codes "&lt;b&gt;&amp;")
    × (json_escape (codes "a\"\\b") ≡ codes "a\\\"\\\\b")
    × (json_escape (7 ∷ 0xFF ∷ []) ≡ codes "\\u0007" ++ (0xEF ∷ 0xBF ∷ 0xBD ∷ []))
    × (prometheus_label_escape (codes "a\n\"b") ≡ codes "a\\n\\\"b")
    × (if_none_match_matches (codes "\"a\", W/\"b\"") (codes "\"b\"") ≡ true)
    × (if_none_match_matches (codes "\"a\"") (codes "\"b\"") ≡ false)
    × (if_none_match_matches (codes "*") [] ≡ false)
unfolding texts
text_tests = (refl, refl, refl, refl, refl, refl, refl)

decoding : Unit {0}
unfolding url_decode
decoding = tt

written_text : WritesAll (codes "a !") (codes "a+%21")
unfolding decoding
written_text =
    next b'a' (codes " !") (codes "a") (codes "+%21") (inl (refl, λ e. cc, λ e. cc, λ e. cc)) (
      next b' ' (codes "!") (codes "+") (codes "%21") (inr (inl (refl, refl))) (
        next b'!' [] (codes "%21") []
          (inr (
            inr (
              b'2',
              b'1',
              2,
              1,
              refl,
              inl (omega arith, refl),
              inl (omega arith, refl),
              refl,
              λ e. cc,
            )))
          nothing))

url_decode_example : url_decode (codes "a+%21") ≡ some (codes "a !")
url_decode_example = url_decode-WritesAll (codes "a !") (codes "a+%21") written_text

decode_tests : (url_decode (codes "%00") ≡ none) × (url_decode (codes "%2") ≡ none)
unfolding decoding
decode_tests = (refl, refl)

secrets : Unit {0}
unfolding differences constant_time_equals
secrets = tt

token-AreBytes : All (λ b. b < 256) (codes "key")
token-AreBytes = (omega arith, (omega arith, (omega arith, tt)))

constant_time_equals_example :
    (constant_time_equals (codes "key") (codes "key") ≡ true) ↔ (codes "key" ≡ codes "key")
constant_time_equals_example =
    constant_time_equals_iff (codes "key") (codes "key") token-AreBytes token-AreBytes

secret_tests :
    (constant_time_equals (codes "key") (codes "kez") ≡ false)
    × (constant_time_equals (codes "key") (codes "key") ≡ true)
unfolding secrets
secret_tests = (refl, refl)
