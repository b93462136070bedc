-- ===== src/Examples.antt =====
-- Tests of the model on inputs that can be followed in the source, and the theorems at such inputs.
mod Mapping
mod Decoding
mod Generation
mod Computing
mod Encoding
mod Memory
mod Bits
mod Registers
mod Files
