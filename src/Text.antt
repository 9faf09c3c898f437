-- ===== src/Text.antt =====
-- The text helpers of include/erikslund/http/text.hpp and src/text.cpp.
pub mod Ascii
pub mod Decimal
pub mod Decode
pub mod Escape
pub mod Etag
pub mod Secrets
