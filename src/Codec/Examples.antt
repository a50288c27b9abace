-- ===== src/Codec/Examples.antt =====
-- The theorem on hexadecimal text at a concrete value.
