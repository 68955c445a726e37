-- ===== src/Dl.antt =====
-- libccos/include/libccos/dl.h and libccos/src/dl.c: the CCDL file format, the loader, the lookup
-- of exported functions, and resources.
pub mod Exports
pub mod Format
pub mod Handle
pub mod Loader
pub mod Resources
