-- ===== src/Schema.antt =====
-- The package schema: what turns an event into a row of a table.
pub mod Flattener
pub mod Mappings
pub mod FieldMapper
pub mod MapObject
pub mod BatchHeader
pub mod MappingStep
pub mod Processor
pub mod Marshaller
