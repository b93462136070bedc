-- ===== src/ArmEncoding.antt =====
-- The lookup tables of src/imlgen/arm_encoding.{h,c}: which page of the instruction set an
-- instruction word belongs to.
pub mod Pages
pub mod Tables
pub mod Spec
pub mod Groups
