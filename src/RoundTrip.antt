-- ===== src/RoundTrip.antt =====
-- What src/xml-hddm.cpp stores, src/hddm-xml.cpp prints: values, attributes, repeated tags, whole
-- records.
pub mod Value
pub mod Attributes
pub mod Frame
pub mod Content
pub mod Tag
pub mod Record
pub mod Top
pub mod Records
pub mod Stable
pub mod Empty
pub mod Header
pub mod Concatenation
