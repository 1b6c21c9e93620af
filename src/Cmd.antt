-- ===== src/Cmd.antt =====
-- The pure parts of the commands in src/cmd/: how their arguments are read and checked.
pub mod Routes
pub mod Paths
pub mod Tunnel
pub mod Tools
