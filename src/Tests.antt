-- ===== src/Tests.antt =====
-- Runs of the model on concrete inputs, by the part of the program that they exercise.
pub mod Events
pub mod Addresses
pub mod Answers
pub mod Drives
pub mod Parsing
pub mod Pieces
pub mod Routes
pub mod Slots
pub mod Storage
pub mod Texts
use erikslund_http_embedded.Prelude.{
  bytes_eq, starts_with, contains_byte, cut, split, find_string, every,
}
use erikslund_http_embedded.Text.Ascii.{ascii_to_lower, same_ignoring_case, equals_ignore_case}
use erikslund_http_embedded.Method.{contains, method_name, first_named, method_from_token}
use erikslund_http_embedded.Request.Chars.{
  is_decimal_digit, hex_value, is_token_character, is_valid_target_byte, is_valid_field_value_byte,
  is_optional_whitespace, trim_front, trim_back, trim_optional_whitespace, slice,
}
use erikslund_http_embedded.Request.Members.{visit_piece, visit_from, for_each_list_member}
use erikslund_http_embedded.Request.Path.{
  segment_is_refused, segments_are_canonical, path_is_canonical,
}
use erikslund_http_embedded.Request.Query.{
  decode_escape, decode_query_byte, decode_query_component_from, decode_query_component_into,
  add_parameter, decode_pair, decode_query_from, decode_query_into,
}
use erikslund_http_embedded.Request.Options.{
  connection_option, connection_fields, resolve_keep_alive, weight_from, weight_is_zero,
  quality_parameter, quality_is_zero, coding_member, coding_fields, resolve_wants_gzip,
}
use erikslund_http_embedded.Request.Length.{
  decimal_value, parse_decimal, framing_field, framing_fields, resolve_content_length,
}
use erikslund_http_embedded.Request.Authority.{
  ends_with_byte, remove_last, port_is_well_formed, is_label_character, labels_are_well_formed,
  registered_name_is_well_formed, find_host, ip_literal_is_well_formed, literal_tail_is_well_formed,
  authority_is_well_formed, agree_on_authority, resolve_authority,
}
use erikslund_http_embedded.Request.Line.{
  version_number_is_well_formed, version_is_well_formed, check_parts, parse_request_line,
}
use erikslund_http_embedded.Request.Target.{cut_authority, split_absolute, split_path, split_target}
use erikslund_http_embedded.Request.Fields.{parse_field, parse_fields_from, parse_header_fields}
use erikslund_http_embedded.Request.State.{
  first_exact, first_ignoring_case, header, param, bind_path_parameter,
}
use erikslund_http_embedded.Request.Parser.{
  parse_query, parse_block, parse_request_bytes, parse_head, parse_body, parse, parse_request,
}
use erikslund_http_embedded.Admission.{
  find, insert_or_assign, erase, source_count, count_source, admit, release,
}
use erikslund_http_embedded.Buffer.{
  readable, resize, overwrite, grow_to, writable_tail, commit, clear, consume, compact,
  compact_and_reclaim, append,
}

-- Everything that computes in the runs.
pub program : Unit {0}
unfolding bytes_eq starts_with contains_byte cut split find_string every ascii_to_lower
    same_ignoring_case equals_ignore_case contains method_name first_named method_from_token
    is_decimal_digit hex_value is_token_character is_valid_target_byte is_valid_field_value_byte
    is_optional_whitespace trim_front trim_back trim_optional_whitespace slice visit_piece
    visit_from for_each_list_member segment_is_refused segments_are_canonical path_is_canonical
    decode_escape decode_query_byte decode_query_component_from decode_query_component_into
    add_parameter decode_pair decode_query_from decode_query_into connection_option
    connection_fields resolve_keep_alive weight_from weight_is_zero quality_parameter
    quality_is_zero coding_member coding_fields resolve_wants_gzip decimal_value parse_decimal
    framing_field framing_fields resolve_content_length ends_with_byte remove_last
    port_is_well_formed is_label_character labels_are_well_formed registered_name_is_well_formed
    find_host ip_literal_is_well_formed literal_tail_is_well_formed authority_is_well_formed
    agree_on_authority resolve_authority version_number_is_well_formed version_is_well_formed
    check_parts parse_request_line cut_authority split_absolute split_path split_target parse_field
    parse_fields_from parse_header_fields first_exact first_ignoring_case header param
    bind_path_parameter parse_query parse_block parse_request_bytes parse_head parse_body parse
    parse_request readable resize overwrite grow_to writable_tail commit clear consume compact
    compact_and_reclaim append find insert_or_assign erase source_count count_source admit release
program = tt
