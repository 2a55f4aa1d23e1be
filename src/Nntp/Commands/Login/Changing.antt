-- ===== src/Nntp/Commands/Login/Changing.antt =====
-- What a session is behind `AUTHINFO`.
use gonewsd.Prelude.{
  ◌≡◌, ◌⊎◌, inl, inr, refl, Bool, true, false, ◌||◌, if◌then◌else◌, [], arith, eq_bytes, str,
  is_empty, Bytes, Option, none, some,
}
use gonewsd.Auth.Store.{Session}
use gonewsd.Nntp.Commands.Login.{
  credentials_hold, groups_of, real_name_of, auth_simple_line, auth_pass, auth_user_name,
  auth_info_with, auth_info, capabilities, start_tls, compress, mode_command,
}
use gonewsd.Nntp.Session.{Server, Conn, Reaction, KeepsSession}
use gonewsd.Spool.Disk.{Disk}
use gonewsd.Text.Strings.{to_upper}

-- The session is one that a user's name and password opened, with the user's groups.
pub record LoggedIn (srv : Server) (session : Option Session) : Type 0 where
  pub opened : Session
  pub password : Bytes
  pub session_is : session ≡ some opened
  pub credentials : credentials_hold srv opened.username password ≡ true
  pub groups_are : opened.groups ≡ groups_of srv.auth_store opened.username

abbrev pub Change : Server → Conn → Reaction → Type 0
Change srv conn r = KeepsSession conn r ⊎ LoggedIn srv r.conn.session

pub if-Change :
    (srv : Server) (conn : Conn) (b : Bool) (x y : Reaction)
    → (b ≡ true → Change srv conn x)
    → (b ≡ false → Change srv conn y)
    → Change srv conn (if b then x else y)
if-Change srv conn true x y h k = h refl
if-Change srv conn false x y h k = k refl

module _ (srv : Server) (conn : Conn) (disk : Disk) where
  pub auth_simple_line-Change :
      (user password : Bytes) → Change srv conn (auth_simple_line srv conn disk user password)
  unfolding auth_simple_line
  auth_simple_line-Change user password =
      if-Change srv conn (is_empty user || is_empty password) _ _ (λ _. inl refl)
        (λ _.
          if-Change srv conn (credentials_hold srv user password) _ _
            (λ h. inr (record {
              opened = record {
                username = user;
                real_name = [];
                groups = groups_of srv.auth_store user;
              };
              password = password;
              session_is = refl;
              credentials = h;
              groups_are = refl;
            }))
            (λ _. inl refl))

  auth_pass-Change : (password : Bytes) → Change srv conn (auth_pass srv conn disk password)
  unfolding auth_pass
  auth_pass-Change password =
      if-Change srv conn (is_empty password) _ _ (λ _. inl refl)
        (λ _.
          if-Change srv conn (is_empty conn.auth_user) _ _ (λ _. inl refl)
            (λ _.
              if-Change srv conn (credentials_hold srv conn.auth_user password) _ _
                (λ h. inr (record {
                  opened = record {
                    username = conn.auth_user;
                    real_name = real_name_of srv.auth_store conn.auth_user;
                    groups = groups_of srv.auth_store conn.auth_user;
                  };
                  password = password;
                  session_is = refl;
                  credentials = h;
                  groups_are = refl;
                }))
                (λ _. inl refl)))

  auth_user_name-KeepsSession : (user : Bytes) → KeepsSession conn (auth_user_name conn disk user)
  unfolding auth_user_name
  auth_user_name-KeepsSession user = ground arith

  auth_info_with-Change : (a b : Bytes) → Change srv conn (auth_info_with srv conn disk a b)
  auth_info_with-Change a b =
      let is = λ (s : Bytes). eq_bytes (to_upper a) s in
      if-Change srv conn (is (str "SIMPLE")) _ _ (λ _. inl refl)
        (λ _.
          if-Change srv conn (is (str "USER")) _ _ (λ _. inl (auth_user_name-KeepsSession b))
            (λ _.
              if-Change srv conn (is (str "PASS")) _ _ (λ _. auth_pass-Change b)
                (λ _. if-Change srv conn (is (str "GENERIC")) _ _ (λ _. inl refl) (λ _. inl refl))))

  pub auth_info-Change : (a b : Bytes) → Change srv conn (auth_info srv conn disk a b)
  unfolding auth_info
  auth_info-Change a b =
      elim srv.auth_store
        as (λ s.
          Change srv conn (elim s [ none ↦ _ | some _ ↦ auth_info_with srv conn disk a b ])) [
            | none ↦ inl refl
            | some _ ↦ auth_info_with-Change a b
          ]

  pub capabilities-KeepsSession : KeepsSession conn (capabilities srv conn disk)
  unfolding capabilities
  capabilities-KeepsSession = refl

  pub start_tls-KeepsSession : KeepsSession conn (start_tls srv conn disk)
  unfolding start_tls
  start_tls-KeepsSession = ground arith

  pub compress-KeepsSession : (a : Bytes) → KeepsSession conn (compress conn disk a)
  unfolding compress
  compress-KeepsSession a = ground arith

  pub mode_command-KeepsSession : (a : Bytes) → KeepsSession conn (mode_command conn disk a)
  unfolding mode_command
  mode_command-KeepsSession a = ground arith
