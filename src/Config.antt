-- ===== src/Config.antt =====
-- internal/config/config.go: the settings of the server.
pub mod Sizes
pub mod Values
pub mod Directives
pub mod Loading
pub mod Usable
pub mod Cutting
use gonewsd.Prelude.{ℕ, Bool, Bytes}
use gonewsd.Prelude.Int.{ℤ}

-- `Timeout` is in seconds.
pub record Config : Type 0 where
  pub hostname_lookups : ℕ
  pub no_recurse_msg_dir : Bool
  pub msg_mod_dirs : Bool
  pub listen_addr : Bytes
  pub error_log : Bytes
  pub error_log_hex : Bool
  pub log_level : ℕ
  pub max_clients : ℕ
  pub max_log_size : ℤ
  pub server_name : Bytes
  pub send_mail : Bytes
  pub spam_filter : Bytes
  pub spool_dir : Bytes
  pub post_command : Bytes
  pub timeout : ℕ
  pub user : Bytes
  pub uid : ℕ
  pub gid : ℕ
  pub bad_user : Bool
  pub auth_mode : Bytes
  pub auth_db : Bytes
  pub auth_log : Bytes
  pub pid_file : Bytes
  pub tls_cert : Bytes
  pub tls_key : Bytes
