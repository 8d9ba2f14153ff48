-- ===== src/Filter/Xml.antt =====
-- libs/ogc-kit/filter/xml.go: filters in XML.
pub mod Tree
pub mod Geometry
pub mod Convert
pub mod Forms
pub mod Grammar
pub mod Shape
