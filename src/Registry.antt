-- ===== src/Registry.antt =====
-- The service registry, `scripts/ubb_registry/`: manifests, indexes, queries and reference checks.
-- A manifest is the part of the YAML document that the program reads; the JSON schema has already
-- held it to its enumerations (`scripts/ubb_schema.py`), so those are data types here.
pub mod Models
pub mod Queries
pub mod Loader
pub mod References
pub mod Samples
