-- ===== src/Wire.antt =====
-- src/C/mcTypes.c and mcTypes.h: the encodings of the protocol.
pub mod Cursor
pub mod VarInt
pub mod Endian
pub mod Strings
pub mod BitSet
pub mod Quotient
pub mod Packed
pub mod Position
pub mod Paletted
pub mod VarLong
pub mod Uuid
