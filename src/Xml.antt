-- ===== src/Xml.antt =====
-- XML responses: lib/src/xml_path.cpp and lib/src/api/xml_parser.cpp over the tree that tinyxml2 parses.
pub mod Dom
pub mod Builder
pub mod Stream
pub mod ToText
pub mod Requests
pub mod Path
pub mod Visitors
pub mod Records
pub mod Responses
mod Examples
