-- ===== src/Interfaces.antt =====
-- What the parts of mlnserver offer to each other, as records that the functions of the model fill.
pub mod Utils
pub mod Macros
pub mod Packets
