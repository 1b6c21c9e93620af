-- ===== src/Tests.antt =====
-- The theorems at concrete inputs, and runs of the definitions.
mod Shell
mod Host
mod Catalog
mod Binfile
mod Lockfile
mod Hop
mod Relay
mod Route
mod Checksum
mod Registry
mod Oci
mod Ssh
mod Push
mod Cmd
mod Auth
