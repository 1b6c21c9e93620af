-- ===== src/Ssh.antt =====
-- Destinations of SSH sessions: the pure parts of src/ssh.rs. Sessions and channels are calls of a
-- library.
pub mod Config
pub mod Login
pub mod Groups
pub mod Resolve
use binport.Base.{ℕ, Option}
use binport.Text.{Text}

pub record BastionProxy : Type 0 where
  pub host : Text
  pub port : ℕ
  pub user : Text
  pub account : Text
  pub preset : Option Text
  pub format : Text

-- A path is its text.
pub record Destination : Type 0 where
  pub hostname : Text
  pub port : ℕ
  pub user : Text
  pub identity : Option Text
  pub managed_identity : Option Text
  pub proxy_jump : Option Text
  pub bastion_proxy : Option BastionProxy
