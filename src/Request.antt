-- ===== src/Request.antt =====
-- The request parser of src/request.cpp, one module for each group of its functions.
pub mod Chars
pub mod Types
pub mod Path
pub mod Query
pub mod Members
pub mod Options
pub mod Length
pub mod Authority
pub mod Target
pub mod Line
pub mod Fields
pub mod State
pub mod Parser
