-- ===== src/Auth/Database/Users.antt =====
-- internal/auth/db.go: the users of the database and their groups.
use gonewsd.Prelude.{
  ℕ, Bool, true, false, List, [], ◌∷◌, ◌++◌, ◌==◌, if◌then◌else◌, is_empty, Bytes, eq_bytes, str,
}
use gonewsd.Auth.Database.{
  Sql, Exec, Answer, row, no_rows, broken, Rows, query_failed, rows, rows_then, Result, done, error,
  run_next, in_tx,
}
use gonewsd.Auth.Validate.{normalize_groups}
use gonewsd.Text.Quoting.{quote}
use gonewsd.Text.Split.{split, join}
use gonewsd.Text.Strings.{trim_space}

module _ {S : Type 0} (db : Sql S) where
  -- The membership in one group; a group that is not there is an error.
  unfoldable pub join_selected : ℕ → Bytes → Answer ℕ → Exec S (Unit {0})
  unfolding quote
  join_selected uid name no_rows s = (error (str "no such group " ++ quote name), s)
  join_selected uid name (broken e) s = (error e, s)
  join_selected uid name (row gid) s = db.insert_membership uid gid s

  -- One part of the list; a blank one is passed over.
  unfoldable pub join_part : ℕ → Bytes → Exec S (Unit {0})
  unfolding join_selected
  join_part uid name s =
      if is_empty name then (done tt, s) else join_selected uid name (db.select_group_id name s) s

  unfoldable pub join_groups : ℕ → List Bytes → Exec S (Unit {0})
  unfolding join_part trim_space
  join_groups uid [] s = (done tt, s)
  join_groups uid (part ∷ parts) s =
      run_next (join_part uid (trim_space part) s) (λ _ s'. join_groups uid parts s')

  -- `setMembershipTx`
  unfoldable pub set_membership_tx : ℕ → Bytes → Exec S (Unit {0})
  unfolding join_groups normalize_groups split eq_bytes
  set_membership_tx uid groups s =
      let names = normalize_groups groups in
      if is_empty names
      then (done tt, s)
      else if eq_bytes names (str "*")
      then db.insert_all_memberships uid s
      else join_groups uid (split names b',') s

  unfoldable pub add_user : Bytes → Bytes → Bytes → Bytes → Exec S (Unit {0})
  unfolding set_membership_tx
  add_user username hash realname groups = in_tx db (λ s.
      run_next (db.insert_user username hash realname s)
        (λ uid s'. set_membership_tx uid groups s'))

  unfoldable pub delete_user : Bytes → Exec S (Unit {0})
  delete_user username s =
      run_next (db.delete_user_row username s)
        (λ n s'. if n == 0 then (error (str "user not found: " ++ username), s') else (done tt, s'))

  abbrev pub or_old : Bytes → Bytes → Bytes
  or_old new old = if is_empty new then old else new

  -- `if newGroups != ""`
  replace_groups : ℕ → Bytes → Exec S (Unit {0})
  unfolding set_membership_tx
  replace_groups uid groups s =
      if is_empty groups
      then (done tt, s)
      else run_next (db.delete_memberships uid s) (λ _ s'. set_membership_tx uid groups s')

  -- The change of the row that is found.
  unfoldable pub update_selected :
      Bytes → Bytes → Bytes → Bytes → Answer (ℕ × (Bytes × Bytes)) → Exec S (Unit {0})
  unfolding replace_groups
  update_selected username hash realname groups no_rows s =
      (error (str "user not found: " ++ username), s)
  update_selected username hash realname groups (broken e) s = (error e, s)
  update_selected username hash realname groups (row (uid, (old_hash, old_name))) s =
      in_tx db
        (λ s'.
          run_next (db.update_user_row (or_old hash old_hash) (or_old realname old_name) uid s')
            (λ _ s''. replace_groups uid groups s''))
        s

  unfoldable pub update_user : Bytes → Bytes → Bytes → Bytes → Exec S (Unit {0})
  unfolding update_selected
  update_user username hash realname groups s =
      update_selected username hash realname groups (db.select_user username s) s

  unfoldable pub user_exists : Bytes → S → Result Bool
  user_exists username s = elim (db.select_user_exists username s) [
    | no_rows ↦ done false
    | broken e ↦ error e
    | row _ ↦ done true
  ]

  -- the rows of a query, or its error
  all_rows : {A : Type 0} → Rows A → Result (List A)
  all_rows (query_failed e) = error e
  all_rows (rows xs) = done xs
  all_rows (rows_then xs e) = error e

  -- The names of the user's groups are read before the user is looked for.
  get_user_groups : Bytes → S → Result Bytes
  unfolding all_rows join
  get_user_groups username s = elim (all_rows (db.select_groups_of username s)) [
    | error e ↦ error e
    | done names ↦ elim (db.select_user_exists username s) [
      | no_rows ↦ done []
      | broken e ↦ error e
      | row _ ↦ done (join names (str ","))
    ]
  ]

  unfoldable pub list_user_groups : Bytes → S → Result (List Bytes)
  unfolding all_rows
  list_user_groups username s = all_rows (db.select_groups_of username s)

-- `UserInfo`
pub record UserInfo : Type 0 where
  pub info_username : Bytes
  pub info_real_name : Bytes
  pub info_groups : Bytes

module _ {S : Type 0} (db : Sql S) where
  -- Each row is completed by its groups; `last` is the error that ends the rows, if any.
  complete_users : S → List (Bytes × Bytes) → Result (List UserInfo) → Result (List UserInfo)
  unfolding get_user_groups
  complete_users s [] last = last
  complete_users s ((name, real) ∷ us) last = elim (get_user_groups db name s) [
    | error e ↦ error e
    | done groups ↦ elim (complete_users s us last) [
      | error e ↦ error e
      | done infos ↦
          done
            (record { info_username = name; info_real_name = real; info_groups = groups } ∷ infos)
    ]
  ]

  unfoldable pub list_users : S → Result (List UserInfo)
  unfolding complete_users
  list_users s = elim (db.select_names s) [
    | query_failed e ↦ error e
    | rows us ↦ complete_users s us (done [])
    | rows_then us e ↦ complete_users s us (error e)
  ]
