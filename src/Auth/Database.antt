-- ===== src/Auth/Database.antt =====
-- internal/auth/db.go: the user database. The statements are run by SQLite, which is an interface
-- here: one operation for each statement of the source, on a state of the database.
pub mod Schema
pub mod Users
pub mod Groups
pub mod Loading
pub mod Atomic
pub mod Membership
pub mod Refining
use gonewsd.Prelude.{ℕ, Bool, List, Bytes}
use gonewsd.Prelude.Int.{ℤ}
use gonewsd.Auth.Store.{User, Group}

-- What `Scan` of a query of one row gives: the row, `sql.ErrNoRows`, or another error.
pub data Answer (A : Type 0) : Type 0 where
  row : A → Answer A
  no_rows : Answer A
  broken : Bytes → Answer A

-- What a query of many rows gives: an error, or rows, which an error can end.
pub data Rows (A : Type 0) : Type 0 where
  query_failed : Bytes → Rows A
  rows : List A → Rows A
  rows_then : List A → Bytes → Rows A

pub data Result (A : Type 0) : Type 0 where
  done : A → Result A
  error : Bytes → Result A

-- A statement that changes the database: an answer, and the state behind it.
abbrev pub Exec : Type 0 → Type 0 → Type 0
Exec S A = S → Result A × S

-- `GroupInfo`
pub record GroupInfo : Type 0 where
  pub info_group_perm : Bytes
  pub info_world_perm : Bytes
  pub info_archived : Bool
  pub info_description : Bytes
  pub info_creator : Bytes
  pub info_post_limit : ℤ
  pub info_cc_post : Bytes
  pub info_reply_to : Bytes
  pub info_void_email : Bytes

-- The columns of a group that the server loads; `archived` is a number.
pub record AclRow : Type 0 where
  pub row_id : ℕ
  pub row_name : Bytes
  pub row_group_perm : Bytes
  pub row_world_perm : Bytes
  pub row_archived : ℕ

-- The statements of db.go. `insert_user` gives the id of the row; `delete_user` and `set_archived`
-- give the number of rows that they change. A row of `groups` comes with its number `archived`.
pub record Sql (S : Type 0) : Type 0 where
  pub insert_user : Bytes → Bytes → Bytes → Exec S ℕ
  pub delete_user_row : Bytes → Exec S ℕ
  pub select_user : Bytes → S → Answer (ℕ × (Bytes × Bytes))
  pub update_user_row : Bytes → Bytes → ℕ → Exec S (Unit {0})
  pub delete_memberships : ℕ → Exec S (Unit {0})
  pub insert_all_memberships : ℕ → Exec S (Unit {0})
  pub select_group_id : Bytes → S → Answer ℕ
  pub insert_membership : ℕ → ℕ → Exec S (Unit {0})
  pub select_user_exists : Bytes → S → Answer (Unit {0})
  pub select_groups_of : Bytes → S → Rows Bytes
  pub select_names : S → Rows (Bytes × Bytes)
  pub upsert_group_row : Bytes → GroupInfo → ℕ → Exec S (Unit {0})
  pub delete_group_row : Bytes → Exec S (Unit {0})
  pub set_archived : ℕ → Bytes → Exec S ℕ
  pub select_groups : S → Rows (Group × ℕ)
  pub select_group : Bytes → S → Answer (Group × ℕ)
  pub select_users : S → Rows User
  pub select_acls : S → Rows AclRow
  pub select_memberships : S → Rows (Bytes × Bytes)
  pub select_acls_table : S → Answer (Unit {0})
  pub create_tables : Exec S (Unit {0})
  pub group_columns : S → Rows Bytes
  pub user_columns : S → Rows Bytes
  pub add_column : Bytes → Exec S (Unit {0})
  pub begin_fails : S → Result (Unit {0})
  pub commit : Exec S (Unit {0})

-- One statement behind another, which an error stops.
abbrev pub run_next : {S A B : Type 0} → Result A × S → (A → Exec S B) → Result B × S
run_next (done a, s) f = f a s
run_next (error e, s) f = (error e, s)

-- `defer tx.Rollback()`: behind an error the state is the one before the transaction.
abbrev pub rolled_back : {S A : Type 0} → S → Result A × S → Result A × S
rolled_back s (done a, s') = (done a, s')
rolled_back s (error e, _) = (error e, s)

-- `Begin`, the statements, and `Commit`.
abbrev pub in_tx : {S : Type 0} → Sql S → Exec S (Unit {0}) → Exec S (Unit {0})
in_tx db body s =
    rolled_back s
      (run_next (db.begin_fails s, s) (λ _ s'. run_next (body s') (λ _ s''. db.commit s'')))
