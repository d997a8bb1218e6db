-- ===== src/Apps.antt =====
-- src/utils: the two programs with a menu, sc6f0-dante-box.cpp and qdemo.cpp.
pub mod Menu
pub mod Box
pub mod Qdemo
mod Tests
