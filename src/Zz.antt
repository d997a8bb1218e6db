-- ===== src/Zz.antt =====
-- src/zzlab: the helpers of the programs, ZzStats.cpp, ZzUtils.cpp, ZzUtils.h, ZzUtils_memory.cpp,
-- ZzUtils_string.cpp, ZzModules.cpp, ZzLog.cpp and ZzClock.cpp.
pub mod Stats
pub mod Pages
pub mod Colour
pub mod Planes
pub mod Cache
pub mod Pace
pub mod Modules
pub mod Log
pub mod FourCc
pub mod System
mod Tests
