-- ===== src/Nntp/Commands/Login/Placing.antt =====
-- The commands that depend on no group keep the current one.
use gonewsd.Prelude.{
  refl, Bool, true, false, arith, Bytes, ◌||◌, is_empty, eq_bytes, str, if◌then◌else◌, none, some,
}
use gonewsd.Nntp.Commands.Login.{
  credentials_hold, auth_simple_line, auth_pass, auth_user_name, auth_info_with, auth_info,
  start_tls, compress, mode_command,
}
use gonewsd.Nntp.Session.{Server, Conn, Reaction, KeepsPlace}
use gonewsd.Spool.Disk.{Disk}
use gonewsd.Text.Strings.{to_upper}

-- Either way of a test keeps the place.
pub choose-KeepsPlace :
    (conn : Conn) (b : Bool) (x y : Reaction)
    → KeepsPlace conn x
    → KeepsPlace conn y
    → KeepsPlace conn (if b then x else y)
choose-KeepsPlace conn true x y h k = h
choose-KeepsPlace conn false x y h k = k

module _ (srv : Server) (conn : Conn) (disk : Disk) where
  pub auth_simple_line-KeepsPlace :
      (user password : Bytes) → KeepsPlace conn (auth_simple_line srv conn disk user password)
  unfolding auth_simple_line
  auth_simple_line-KeepsPlace user password =
      choose-KeepsPlace conn (is_empty user || is_empty password) _ _ (refl, refl)
        (choose-KeepsPlace conn (credentials_hold srv user password) _ _ (refl, refl) (refl, refl))

  auth_pass-KeepsPlace : (password : Bytes) → KeepsPlace conn (auth_pass srv conn disk password)
  unfolding auth_pass
  auth_pass-KeepsPlace password =
      choose-KeepsPlace conn (is_empty password) _ _ (refl, refl)
        (choose-KeepsPlace conn (is_empty conn.auth_user) _ _ (refl, refl)
          (choose-KeepsPlace conn (credentials_hold srv conn.auth_user password) _ _ (refl, refl)
            (refl, refl)))

  auth_user_name-KeepsPlace : (user : Bytes) → KeepsPlace conn (auth_user_name conn disk user)
  unfolding auth_user_name
  auth_user_name-KeepsPlace user =
      choose-KeepsPlace conn (is_empty user) _ _ (refl, refl) (refl, refl)

  auth_info_with-KeepsPlace : (a b : Bytes) → KeepsPlace conn (auth_info_with srv conn disk a b)
  auth_info_with-KeepsPlace a b =
      let is = λ (s : Bytes). eq_bytes (to_upper a) s in
      choose-KeepsPlace conn (is (str "SIMPLE")) _ _ (refl, refl)
        (choose-KeepsPlace conn (is (str "USER")) _ _ (auth_user_name-KeepsPlace b) (
          choose-KeepsPlace conn (is (str "PASS")) _ _ (auth_pass-KeepsPlace b)
            (choose-KeepsPlace conn (is (str "GENERIC")) _ _ (refl, refl) (refl, refl))))

  pub auth_info-KeepsPlace : (a b : Bytes) → KeepsPlace conn (auth_info srv conn disk a b)
  unfolding auth_info
  auth_info-KeepsPlace a b =
      elim srv.auth_store
        as (λ s.
          KeepsPlace conn (elim s [ none ↦ _ | some _ ↦ auth_info_with srv conn disk a b ])) [
            | none ↦ (refl, refl)
            | some _ ↦ auth_info_with-KeepsPlace a b
          ]

  pub start_tls-KeepsPlace : KeepsPlace conn (start_tls srv conn disk)
  unfolding start_tls
  start_tls-KeepsPlace = ground arith

  pub compress-KeepsPlace : (a : Bytes) → KeepsPlace conn (compress conn disk a)
  unfolding compress
  compress-KeepsPlace a = ground arith

  pub mode_command-KeepsPlace : (a : Bytes) → KeepsPlace conn (mode_command conn disk a)
  unfolding mode_command
  mode_command-KeepsPlace a = ground arith
