-- ===== src/Router.antt =====
-- src/router.cpp and include/erikslund/http/router.hpp: registration and dispatch. A handler is a
-- function that may throw, which is `none`; the type of responses is a parameter.
pub mod Pattern
pub mod Table
pub mod Dispatch
pub mod Matching
pub mod Registration
pub mod Indices
pub mod Kinds
pub mod Order
pub mod Choice
