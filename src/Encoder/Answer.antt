-- ===== src/Encoder/Answer.antt =====
-- From what a handler built to what is sent.
use erikslund_http_embedded.Prelude.{
  ◌≡◌, inl, inr, true, not, ◌||◌, Option, List, [], ◌∷◌, ◌==◌, Bool-cases, Option-cases, if_true,
  if_false, Bytes, codes, length, none, some,
}
use erikslund_http_embedded.Method.{get, head, options}
use erikslund_http_embedded.Encoder.{
  apply_conditional_request, ResponseEncodingOptions, accept_encoding_vary, condition_holds,
  encode_response, not_modified_from, preserved_fields, value_or_empty, preserve, preserve_field,
}
use erikslund_http_embedded.Response.Clean.{
  Made, IsSendable, Made-IsSendable, set_header-IsSendable,
}
use erikslund_http_embedded.Encoder.Head.{
  IsHead, connection_token, encode_response-IsHead, announced,
}
use erikslund_http_embedded.Request.State.{Request, header}
use erikslund_http_embedded.Response.{
  Response, empty_response, find_header, is_stream, is_valid_field_value, response_body,
}
use erikslund_http_embedded.Status.{is_bodiless, not_modified, status_code}
use erikslund_http_embedded.Compress.{response_varies_on_accept_encoding}

preserve_field-IsSendable :
    (field : Bytes) (found : Option Bytes) (kept : Response)
    → IsSendable kept.headers
    → IsSendable (preserve_field field found kept).headers
unfolding preserve_field
preserve_field-IsSendable field none kept v = v
preserve_field-IsSendable field (some value) kept v = set_header-IsSendable field value kept v

preserve-IsSendable :
    (fields : List Bytes) (source kept : Response)
    → IsSendable kept.headers
    → IsSendable (preserve fields source kept).headers
unfolding preserve
preserve-IsSendable [] source kept v = v
preserve-IsSendable (field ∷ fields) source kept v =
    preserve-IsSendable fields source (preserve_field field (find_header source field) kept)
      (preserve_field-IsSendable field (find_header source field) kept v)

not_modified_from-IsSendable : (source : Response) → IsSendable (not_modified_from source).headers
unfolding not_modified_from
not_modified_from-IsSendable source =
    let kept = preserve preserved_fields source (empty_response not_modified) in
    let v =
      preserve-IsSendable preserved_fields source (empty_response not_modified)
        (unfold empty_response in record { clean = tt; distinct = tt }) in
    let declared = find_header source (codes "Vary") in
    elim (Bool-cases (
      response_varies_on_accept_encoding
        (value_or_empty (find_header source (codes "Content-Type")))
        (value_or_empty (find_header source (codes "Content-Encoding")))
        (length (response_body source)))) [
          | inl e ↦ rw (if_true _ _ e) (
              set_header-IsSendable (codes "Vary") (accept_encoding_vary (value_or_empty declared))
                kept v)
          | inr e ↦ elim (Option-cases declared) [
            | inl f ↦ rw (if_false _ _ e) (rw f v)
            | inr (value, f) ↦
                rw (if_false _ _ e) (rw f (set_header-IsSendable (codes "Vary") value kept v))
          ]
        ]

apply_conditional_request-IsSendable :
    (request : Request) (response : Response)
    → IsSendable response.headers
    → IsSendable (apply_conditional_request request response).headers
unfolding apply_conditional_request
apply_conditional_request-IsSendable request response v =
    elim (Bool-cases (
      not (request.method == get || request.method == head)
      || not (status_code response.status == 200)
      || is_stream response)) [
        | inl e ↦ rw (if_true _ _ e) v
        | inr e ↦
            elim (Bool-cases (
              condition_holds (find_header response (codes "ETag"))
                (header request (codes "If-None-Match")))) [
                  | inl f ↦
                      rw (if_false _ _ e)
                        (rw (if_true _ _ f) (not_modified_from-IsSendable response))
                  | inr f ↦ rw (if_false _ _ e) (rw (if_false _ _ f) v)
                ]
      ]

-- However a handler builds its response, the head that is sent for it, be it the response or a 304 in its
-- place, is a status line and whole lines of clean fields, of which one says whether the connection
-- stays, one the size of the body where there is one to be announced, and none that it is in chunks.
pub answer-IsHead :
    (deflate : Bytes → Option Bytes) (date : Bytes) (request : Request) {made : Response}
    (options : ResponseEncodingOptions)
    → is_valid_field_value date ≡ true
    → Made made
    → let response = apply_conditional_request request made in
      IsHead response.status
        (announced
          (is_stream response || is_bodiless response.status)
          (length (encode_response deflate date request response options).body))
        (connection_token (is_stream response) options.keep_alive)
        (encode_response deflate date request response options).written
answer-IsHead deflate date request {made} options d m =
    encode_response-IsHead deflate date request (apply_conditional_request request made) options d
      (apply_conditional_request-IsSendable request made (Made-IsSendable m)).clean
