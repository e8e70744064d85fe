-- ===== src/Wire.antt =====
-- What is sent between the programs: the messages of protos/chat.proto and the conversions.
pub mod Proto
pub mod Convert
pub mod Sent
pub mod Calls
pub mod Served
pub mod Whole
pub mod Running
pub mod Generated
pub mod Votes
