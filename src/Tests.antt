-- ===== src/Tests.antt =====
-- Concrete runs of the modelled code, and each theorem at a concrete input.
mod Samples
mod Serving
mod Naming
mod Storing
mod Operating
