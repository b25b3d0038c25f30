-- ===== src/Crc.antt =====
-- The CRC-16/DNP of a message, by the four implementations among which ascii_serial_com.c chooses.
pub mod Tbl4bit
pub mod Crcmod
pub mod FastWidth
pub mod Bbb
pub mod Bbf
pub mod Agree
pub mod Additive
pub mod Register
pub mod Reflected
pub mod Augmented
pub mod Detects
