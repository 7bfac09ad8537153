-- ===== src/Wire.antt =====
-- src/transport/moqt_control_messages.cpp: the byte level of MOQT, from integers to messages.
pub mod Cursor
pub mod Varint
pub mod Vi64
pub mod Moqint
pub mod Control
pub mod Fields
pub mod Requests
pub mod Notices
pub mod Objects
