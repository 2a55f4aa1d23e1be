-- ===== src/Cli/Commands.antt =====
-- cmd/gonewsd/authcli.go: `runAddUser`, `runUpdateUser` and `runDeleteUser`.
use gonewsd.Prelude.{
  ℕ, Bool, true, false, not, ◌&&◌, ◌||◌, List, [], Option, none, some, if◌then◌else◌, is_empty,
  Bytes,
}
use gonewsd.Auth.Database.{Sql, Result, done, error}
use gonewsd.Auth.Database.Users.{add_user, update_user, delete_user}
use gonewsd.Auth.Validate.{validate_groups, validate_password}
use gonewsd.Cli.{
  Entry, Asked, got, waiting, Terminal, prompt_if_missing, prompt_email_if_missing,
  prompt_password_if_missing, prompt_password_optional, prompt_groups_if_missing,
  prompt_groups_optional, prompt_existing_user_email, prompt_confirm_yn, existing_group_names,
}

-- How a command ends: it exits with a status, or waits for more input; with the database.
pub data Run (S : Type 0) : Type 0 where
  exit : ℕ → S → Run S
  unanswered : S → Run S

unfoldable pub ask : {S A : Type 0} → Asked A → S → (A → List Entry → Run S) → Run S
ask (got a es) s next = next a es
ask waiting s next = unanswered s

-- The exit behind a change of the database.
unfoldable pub finish : {S : Type 0} → Result (Unit {0}) × S → Run S
finish (done _, s) = exit 0 s
finish (error _, s) = exit 1 s

-- `os.Exit(1)` if a test fails
unfoldable pub check : {S : Type 0} → Bool → S → Run S → Run S
check true s next = next
check false s next = exit 1 s

-- With a value, the rest of a command; without one, the exit.
unfoldable pub given : {S A : Type 0} → Option A → S → (A → Run S) → Run S
given none s next = exit 1 s
given (some a) s next = next a

-- The options of the commands, which are empty if they are not given.
pub record UserArgs : Type 0 where
  pub arg_user : Bytes
  pub arg_pass : Bytes
  pub arg_real_name : Bytes
  pub arg_groups : Bytes

module _ {S : Type 0} (term : Terminal) (db : Sql S) where
  -- The tests behind the prompts, and the change.
  unfoldable pub add_checked : Bytes → Bytes → Bytes → Bytes → S → Run S
  unfolding check given finish validate_password validate_groups existing_group_names add_user
  add_checked user pass real groups s = check (term.validate_email user) s (
      check (is_empty (validate_password pass)) s (
        check (is_empty (validate_groups groups (existing_group_names db s))) s (
          given (term.hash_password pass) s
            (λ hash. finish (add_user db user hash real groups s)))))

  unfoldable pub add_groups : UserArgs → Bytes → Bytes → S → Bytes → List Entry → Run S
  unfolding check ask prompt_groups_if_missing add_checked
  add_groups args user pass s real es =
      ask (prompt_groups_if_missing db term args.arg_groups s es) s
        (λ groups _. check (not (is_empty groups)) s (add_checked user pass real groups s))

  -- `if *realname == "" && interactive()`
  unfoldable pub add_real_name : UserArgs → Bytes → S → Bytes → List Entry → Run S
  unfolding check ask prompt_if_missing add_groups
  add_real_name args user s pass es =
      check (not (is_empty pass)) s
        (ask (prompt_if_missing term args.arg_real_name es) s (add_groups args user pass s))

  unfoldable pub add_password : UserArgs → S → Bytes → List Entry → Run S
  unfolding check ask prompt_password_if_missing add_real_name
  add_password args s user es =
      check (not (is_empty user)) s
        (ask (prompt_password_if_missing term args.arg_pass es) s (add_real_name args user s))

  unfoldable pub run_add_user : UserArgs → S → List Entry → Run S
  unfolding ask prompt_email_if_missing add_password
  run_add_user args s es =
      ask (prompt_email_if_missing term args.arg_user es) s (add_password args s)

  -- The new hash, or nothing to change; a password that is not accepted is an error.
  unfoldable pub new_hash : Bytes → Option Bytes
  unfolding validate_password
  new_hash pass =
      if is_empty pass
      then some []
      else if is_empty (validate_password pass)
      then term.hash_password pass
      else none

  unfoldable pub update_checked : Bytes → Bytes → Bytes → Bytes → S → Run S
  unfolding check given finish new_hash validate_groups existing_group_names update_user
  update_checked user pass real groups s = check (term.validate_email user) s (
      given (new_hash pass) s (λ hash.
        check (is_empty groups || is_empty (validate_groups groups (existing_group_names db s))) s
          (finish (update_user db user hash real groups s))))

  abbrev nothing_new : Bytes → Bytes → Bytes → Bool
  nothing_new pass real groups = is_empty pass && (is_empty real && is_empty groups)

  -- With no change on the command line, all three are asked for.
  unfoldable pub update_asked : Bytes → S → List Entry → Run S
  unfolding check ask prompt_password_optional prompt_if_missing prompt_groups_optional
      update_checked
  update_asked user s es = ask (prompt_password_optional term es) s (λ pass es1.
      ask (prompt_if_missing term [] es1) s (λ real es2.
        ask (prompt_groups_optional db term s es2) s (λ groups _.
          check (not (nothing_new pass real groups)) s (update_checked user pass real groups s))))

  unfoldable pub update_given : UserArgs → Bytes → S → List Entry → Run S
  unfolding update_asked update_checked
  update_given args user s es =
      if nothing_new args.arg_pass args.arg_real_name args.arg_groups
      then update_asked user s es
      else update_checked user args.arg_pass args.arg_real_name args.arg_groups s

  unfoldable pub update_found : UserArgs → S → Bytes → List Entry → Run S
  unfolding check update_given
  update_found args s user es = check (not (is_empty user)) s (update_given args user s es)

  unfoldable pub run_update_user : UserArgs → S → List Entry → Run S
  unfolding ask prompt_existing_user_email update_found
  run_update_user args s es =
      ask (prompt_existing_user_email db term args.arg_user s es) s (update_found args s)

  delete_confirmed : Bytes → S → Bool → List Entry → Run S
  unfolding check finish delete_user
  delete_confirmed user s sure es = check sure s (finish (delete_user db user s))

  delete_found : Bool → S → Bytes → List Entry → Run S
  unfolding check ask prompt_confirm_yn delete_confirmed
  delete_found sure s user es =
      check (not (is_empty user)) s
        (ask (if sure then got true es else prompt_confirm_yn es) s (delete_confirmed user s))

  -- `sure` is the option `-y`.
  unfoldable pub run_delete_user : Bytes → Bool → S → List Entry → Run S
  unfolding ask prompt_existing_user_email delete_found
  run_delete_user user sure s es =
      ask (prompt_existing_user_email db term user s es) s (delete_found sure s)
