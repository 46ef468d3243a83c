-- ===== src/PnpId.antt =====
-- The Plug and Play identifier: include/gpib/pnpid.h and src/gpib/pnpid.c. A C string is the list of
-- the bytes before its NUL, and the data of a tuple is a list of bytes.
pub mod Crc
pub mod Build
pub mod Identifier
pub mod Table
pub mod Tests
pub mod Text
