-- ===== src/Phase.antt =====
-- The three phases that redcli/main.cpp runs on a window of row blocks.
pub mod Slots
pub mod Times
pub mod Raster
pub mod Encode
pub mod Decode
pub mod RoundTrip
