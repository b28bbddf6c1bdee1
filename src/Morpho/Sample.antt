-- ===== src/Morpho/Sample.antt =====
-- A concrete encoder that meets the laws of `IsAbi`, for tests and witnesses: every field is
-- written as units of 1000 and above, so that lower case leaves it alone.
pub mod Codec
pub mod CodecLaws
pub mod Data
