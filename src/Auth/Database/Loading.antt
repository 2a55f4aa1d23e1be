-- ===== src/Auth/Database/Loading.antt =====
-- internal/auth/db.go: `LoadStoreFromDB`.
use gonewsd.Prelude.{not, List, [], ◌∷◌, ◌++◌, ◌==◌, Bytes, str}
use gonewsd.Prelude.Int.{pos}
use gonewsd.Auth.Database.{Sql, AclRow, Rows, query_failed, rows, rows_then, Result, done, error}
use gonewsd.Auth.Store.{User, Group, Store, clear, load_user, load_group, load_membership}

-- A group as the server loads it; the other columns are not read.
abbrev pub acl_group : AclRow → Group
acl_group r = record {
  group_id = r.row_id;
  groupname = r.row_name;
  group_perm = r.row_group_perm;
  world_perm = r.row_world_perm;
  archived = not (r.row_archived == 0);
  description = [];
  creator = [];
  post_limit = pos 0;
  cc_post = [];
  reply_to = [];
  void_email = [];
}

unfoldable pub load_users : Store → List User → Store
unfolding load_user
load_users st [] = st
load_users st (u ∷ us) = load_users (load_user st u) us

unfoldable pub load_groups : Store → List AclRow → Store
unfolding load_group
load_groups st [] = st
load_groups st (r ∷ rs) = load_groups (load_group st (acl_group r)) rs

unfoldable pub load_memberships : Store → List (Bytes × Bytes) → Store
unfolding load_membership
load_memberships st [] = st
load_memberships st ((u, g) ∷ ms) = load_memberships (load_membership st u g) ms

-- A query whose rows are loaded one by one; the store keeps the rows before an error.
abbrev pub load_rows :
    {A : Type 0} → Bytes → (Store → List A → Store) → Rows A → Store → Result (Unit {0}) × Store
load_rows what load (query_failed e) st = (error (what ++ (str ": " ++ e)), st)
load_rows what load (rows xs) st = (done tt, load st xs)
load_rows what load (rows_then xs e) st = (error e, load st xs)

abbrev pub stage :
    Result (Unit {0}) × Store → (Store → Result (Unit {0}) × Store) → Result (Unit {0}) × Store
stage (error e, st) next = (error e, st)
stage (done _, st) next = next st

module _ {S : Type 0} (db : Sql S) (s : S) where
  abbrev pub user_stage : Store → Result (Unit {0}) × Store
  user_stage st = load_rows (str "query users") load_users (db.select_users s) (clear st)

  abbrev pub group_stage : Store → Result (Unit {0}) × Store
  group_stage = load_rows (str "query groups") load_groups (db.select_acls s)

  abbrev pub membership_stage : Store → Result (Unit {0}) × Store
  membership_stage =
      load_rows (str "query group_membership") load_memberships (db.select_memberships s)

  unfoldable pub load_store_from_db : Store → Result (Unit {0}) × Store
  unfolding clear load_users load_groups load_memberships
  load_store_from_db st = stage (stage (user_stage st) group_stage) membership_stage
