-- ===== src/Auth/Database/Schema.antt =====
-- internal/auth/db.go: the making of the tables.
use gonewsd.Prelude.{Bool, true, false, List, [], ◌∷◌, ◌++◌, if◌then◌else◌, Bytes, eq_bytes, str}
use gonewsd.Auth.Database.{
  Sql, Exec, row, no_rows, broken, Rows, query_failed, rows, rows_then, Result, done, error,
  run_next,
}

-- The loop over the columns, which stops at the name.
has_column : Bytes → List Bytes → Result Bool → Result Bool
unfolding eq_bytes
has_column name [] end = end
has_column name (c ∷ cs) end =
    let rest = has_column name cs end in if eq_bytes c name then done true else rest

search_column : Bytes → Rows Bytes → Result Bool
unfolding has_column
search_column name (query_failed e) = error e
search_column name (rows cs) = has_column name cs (done false)
search_column name (rows_then cs e) = has_column name cs (error e)

-- `fmt.Errorf` around the error of a statement.
abbrev wrap : {S : Type 0} → Bytes → Result (Unit {0}) × S → Result (Unit {0}) × S
wrap text (done u, s) = (done u, s)
wrap text (error e, s) = (error (text ++ e), s)

module _ {S : Type 0} (db : Sql S) where
  has_legacy_schema : S → Result Bool
  has_legacy_schema s = elim (db.select_acls_table s) [
    | no_rows ↦ done false
    | broken e ↦ error e
    | row _ ↦ done true
  ]

  add_columns : List Bytes → Exec S (Unit {0})
  add_columns [] s = (done tt, s)
  add_columns (c ∷ cs) s =
      run_next (wrap (str "migrate groups: " ++ (c ++ str ": ")) (db.add_column c s))
        (λ _ s'. add_columns cs s')

  abbrev alter_stmts : List Bytes
  alter_stmts =
      str "ALTER TABLE groups ADD COLUMN description TEXT NOT NULL DEFAULT ''"
      ∷ str "ALTER TABLE groups ADD COLUMN creator TEXT NOT NULL DEFAULT '-'"
      ∷ str "ALTER TABLE groups ADD COLUMN postlimit INTEGER NOT NULL DEFAULT 1000"
      ∷ str "ALTER TABLE groups ADD COLUMN ccpost TEXT NOT NULL DEFAULT '-'"
      ∷ str "ALTER TABLE groups ADD COLUMN replyto TEXT NOT NULL DEFAULT '-'"
      ∷ str "ALTER TABLE groups ADD COLUMN voidemail TEXT NOT NULL DEFAULT 'root'"
      ∷ []

  migrate_group_columns : Exec S (Unit {0})
  unfolding search_column add_columns
  migrate_group_columns s = elim (search_column (str "description") (db.group_columns s)) [
    | error e ↦ (error e, s)
    | done true ↦ (done tt, s)
    | done false ↦ add_columns alter_stmts s
  ]

  migrate_user_columns : Exec S (Unit {0})
  unfolding search_column
  migrate_user_columns s = elim (search_column (str "realname") (db.user_columns s)) [
    | error e ↦ (error e, s)
    | done true ↦ (done tt, s)
    | done false ↦
        wrap (str "migrate users: add realname: ")
          (db.add_column (str "ALTER TABLE users ADD COLUMN realname TEXT NOT NULL DEFAULT ''") s)
  ]

  unfoldable pub ensure_schema : Exec S (Unit {0})
  unfolding has_legacy_schema migrate_group_columns migrate_user_columns
  ensure_schema s = elim (has_legacy_schema s) [
    | error e ↦ (error e, s)
    | done true ↦ (
      error (
          str
            "legacy auth.db schema detected (old users/groups tables). Please delete auth.db and re-run to create a fresh database"),
      s,
    )
    | done false ↦
        run_next (db.create_tables s)
          (λ _ s'. run_next (migrate_group_columns s') (λ _ s''. migrate_user_columns s''))
  ]
