-- ===== src/Manager.antt =====
-- include/slam_system_manager/system_manager.hpp and src/system_manager.cpp: the node that owns the
-- system's state, its services and timers, and the background operations that they start.
pub mod Fields
pub mod Components
pub mod Background
pub mod Maps
pub mod Mapping
pub mod Pose
pub mod Localization
pub mod Sensors
pub mod Recovery
pub mod System
pub mod Token
