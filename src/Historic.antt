-- ===== src/Historic.antt =====
-- The Wishbone bus driver of historic/driver and the generator of its device lists, which came before
-- SDB: a bus is described by SDWB, a header with the address of an array of device descriptors.
pub mod Sdwb
pub mod Bus
pub mod Image
pub mod Onewire
pub mod Tests
