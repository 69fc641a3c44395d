-- ===== src/Schema.antt =====
-- The schema that CREATE TABLE hands to the kernel: `DeltaSchemaBuilder` (src/delta_schema_builder.cpp)
-- and the refusals of types before it (src/storage/delta_create_table.cpp).
pub mod Builder
pub mod Storable
