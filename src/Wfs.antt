-- ===== src/Wfs.antt =====
-- services/wfs: the feature service.
mod Tests
pub mod Model
pub mod Database
pub mod Params
pub mod Statements
pub mod Encode
pub mod Stream
pub mod Locks
pub mod Xml
pub mod Transaction
pub mod Meta
pub mod Meaning
pub mod GetFeature
