-- ===== src/Config.antt =====
-- The configuration: configurator.cpp, properties.cpp and config_file_configurator.cpp.
pub mod Variables
pub mod Properties
pub mod Process
pub mod Log4cplus
pub mod Configure
