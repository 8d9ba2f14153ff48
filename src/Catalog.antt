-- ===== src/Catalog.antt =====
-- services/catalog: the catalog of workspaces, stores, layers, styles and layer groups.
pub mod Model
pub mod Stores
pub mod Layers
pub mod Styles
pub mod Intact
pub mod Rest
mod Tests
