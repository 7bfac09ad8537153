-- ===== src/Mp4.antt =====
-- src/mp4_box.cpp: the boxes of an MP4 file.
pub mod Boxes
