-- ===== src/Simd.antt =====
-- The drivers of the SIMD builds, which run a vector kernel on most of a slice and the scalar code on
-- the rest. The kernels are arguments of the drivers, in the code and here.
pub mod Decode
pub mod Encode
