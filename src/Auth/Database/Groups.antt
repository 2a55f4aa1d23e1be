-- ===== src/Auth/Database/Groups.antt =====
-- internal/auth/db.go: the groups of the database.
use gonewsd.Prelude.{
  ℕ, Bool, not, List, [], ◌∷◌, ◌++◌, Option, none, some, ◌==◌, if◌then◌else◌, Bytes, str,
}
use gonewsd.Auth.Database.{
  Sql, Exec, row, no_rows, broken, query_failed, rows, rows_then, Result, done, error, run_next,
  GroupInfo,
}
use gonewsd.Auth.Store.{Group}

abbrev flag : Bool → ℕ
flag b = if b then 1 else 0

-- `g.Archived = archived != 0`
abbrev pub with_archived : Group × ℕ → Group
with_archived (g, n) = record g { archived = not (n == 0) }

module _ {S : Type 0} (db : Sql S) where
  unfoldable pub upsert_group : Bytes → GroupInfo → Exec S (Unit {0})
  upsert_group name info = db.upsert_group_row name info (flag info.info_archived)

  unfoldable pub delete_group : Bytes → Exec S (Unit {0})
  delete_group name = db.delete_group_row name

  unfoldable pub set_group_archived : Bytes → Bool → Exec S (Unit {0})
  set_group_archived name archived s =
      run_next (db.set_archived (flag archived) name s)
        (λ n s'. if n == 0 then (error (str "group not found: " ++ name), s') else (done tt, s'))

  abbrev groups_of_rows : List (Group × ℕ) → List Group
  groups_of_rows [] = []
  groups_of_rows (r ∷ rs) = with_archived r ∷ groups_of_rows rs

  unfoldable pub list_groups : S → Result (List Group)
  list_groups s = elim (db.select_groups s) [
    | query_failed e ↦ error e
    | rows rs ↦ done (groups_of_rows rs)
    | rows_then rs e ↦ error e
  ]

  unfoldable pub get_group : Bytes → S → Result (Option Group)
  get_group name s = elim (db.select_group name s) [
    | no_rows ↦ done none
    | broken e ↦ error e
    | row r ↦ done (some (with_archived r))
  ]
