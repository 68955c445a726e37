-- ===== src/Dl/Resources/Data.antt =====
-- `dl_res_get_data`: what is in the buffer and in the handle afterwards.
pub mod Decode
pub mod Laws
pub mod Read
