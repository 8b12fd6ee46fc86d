-- ===== src/Export.antt =====
-- export/: the exporters that write a result to a stream.
pub mod Csv
pub mod Exporter
pub mod Formats
pub mod Json
