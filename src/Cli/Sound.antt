-- ===== src/Cli/Sound.antt =====
-- What the commands on users leave behind.
use gonewsd.Prelude.{
  ◌≡◌, refl, sym, Bool, true, false, not, ◌&&◌, ◌||◌, List, [], Option, none, some, if◌then◌else◌,
  is_empty, Bytes, arith,
}
use mathlib.Core.Path.{subst}
use gonewsd.Auth.Database.{Sql, Result, done, error}
use gonewsd.Auth.Database.Atomic.{add_user-error, update_user-error}
use gonewsd.Auth.Database.Users.{add_user, update_user}
use gonewsd.Auth.Validate.{validate_groups, validate_password}
use gonewsd.Cli.{
  Entry, Asked, got, waiting, Terminal, existing_group_names, prompt_if_missing,
  prompt_email_if_missing, prompt_password_if_missing, prompt_password_optional,
  prompt_groups_if_missing, prompt_groups_optional, prompt_existing_user_email,
}
use gonewsd.Cli.Commands.{
  Run, exit, unanswered, ask, finish, check, given, update_given, UserArgs, add_checked, add_groups,
  add_real_name, add_password, run_add_user, new_hash, update_checked, update_asked, update_found,
  run_update_user,
}

-- A command that started with the database `s` waits, or fails and leaves `s`, or succeeds with a
-- database of which `P` holds.
pub data Sound {S : Type 0} (s : S) (P : S → Type 0) : Run S → Type 0 where
  waits : Sound s P (unanswered s)
  fails : Sound s P (exit 1 s)
  succeeds : (s' : S) → P s' → Sound s P (exit 0 s')

module _ {S : Type 0} {s : S} {P : S → Type 0} where
  ask-Sound :
      {A : Type 0} (r : Asked A) {next : A → List Entry → Run S}
      → ((a : A) (es : List Entry) → Sound s P (next a es))
      → Sound s P (ask r s next)
  unfolding ask
  ask-Sound (got a es) h = h a es
  ask-Sound waiting h = waits

  check-Sound : (b : Bool) {next : Run S} → (b ≡ true → Sound s P next) → Sound s P (check b s next)
  unfolding check
  check-Sound true h = h refl
  check-Sound false h = fails

  given-Sound :
      {A : Type 0} (o : Option A) {next : A → Run S}
      → ((a : A) → o ≡ some a → Sound s P (next a))
      → Sound s P (given o s next)
  unfolding given
  given-Sound none h = fails
  given-Sound (some a) h = h a refl

  finish-Sound :
      (r : Result (Unit {0}) × S)
      → ((e : Bytes) (s' : S) → r ≡ (error e, s') → s' ≡ s)
      → ((s' : S) → r ≡ (done tt, s') → P s')
      → Sound s P (finish r)
  unfolding finish
  finish-Sound (done tt, s') h k = succeeds s' (k s' refl)
  finish-Sound (error e, s') h k = subst (λ t. Sound s P (exit 1 t)) (sym (h e s' refl)) fails

module _ {S : Type 0} (term : Terminal) (db : Sql S) where
  -- The user that was added: an address, a password and groups that are accepted.
  pub record Adds (s s' : S) : Type 0 where
    pub user : Bytes
    pub pass : Bytes
    pub real : Bytes
    pub groups : Bytes
    pub hash : Bytes
    pub email_ok : term.validate_email user ≡ true
    pub pass_ok : is_empty (validate_password pass) ≡ true
    pub groups_ok : is_empty (validate_groups groups (existing_group_names db s)) ≡ true
    pub hashed : term.hash_password pass ≡ some hash
    pub added : add_user db user hash real groups s ≡ (done tt, s')

  add_checked-Sound :
      (user pass real groups : Bytes) (s : S)
      → Sound s (Adds s) (add_checked term db user pass real groups s)
  unfolding add_checked
  add_checked-Sound user pass real groups s = check-Sound _ (λ e. check-Sound _ (λ p.
      check-Sound _ (λ g. given-Sound _ (λ hash h.
        finish-Sound (add_user db user hash real groups s)
          (λ f s' q. add_user-error db user hash real groups s q)
          (λ s' q. record {
            user = user;
            pass = pass;
            real = real;
            groups = groups;
            hash = hash;
            email_ok = e;
            pass_ok = p;
            groups_ok = g;
            hashed = h;
            added = q;
          })))))

  add_groups-Sound :
      (args : UserArgs) (user pass : Bytes) (s : S) (real : Bytes) (es : List Entry)
      → Sound s (Adds s) (add_groups term db args user pass s real es)
  unfolding add_groups
  add_groups-Sound args user pass s real es =
      ask-Sound (prompt_groups_if_missing db term args.arg_groups s es) (λ groups _.
        check-Sound (not (is_empty groups)) (λ _. add_checked-Sound user pass real groups s))

  add_real_name-Sound :
      (args : UserArgs) (user : Bytes) (s : S) (pass : Bytes) (es : List Entry)
      → Sound s (Adds s) (add_real_name term db args user s pass es)
  unfolding add_real_name
  add_real_name-Sound args user s pass es = check-Sound (not (is_empty pass)) (λ _.
      ask-Sound (prompt_if_missing term args.arg_real_name es) (add_groups-Sound args user pass s))

  add_password-Sound :
      (args : UserArgs) (s : S) (user : Bytes) (es : List Entry)
      → Sound s (Adds s) (add_password term db args s user es)
  unfolding add_password
  add_password-Sound args s user es = check-Sound (not (is_empty user)) (λ _.
      ask-Sound (prompt_password_if_missing term args.arg_pass es)
        (add_real_name-Sound args user s))

  -- `adduser` waits for an answer, or fails and leaves the database as it was, or adds a user with a
  -- valid address, an accepted password, whose hash is stored, and groups that `ValidateGroups`
  -- accepts.
  pub run_add_user-Sound :
      (args : UserArgs) (s : S) (es : List Entry)
      → Sound s (Adds s) (run_add_user term db args s es)
  unfolding run_add_user
  run_add_user-Sound args s es =
      ask-Sound (prompt_email_if_missing term args.arg_user es) (add_password-Sound args s)

  -- The change of a user: no new password is given and no hash is to be stored, or the password is
  -- accepted by `ValidatePassword` and its hash is stored; and no groups are given, or
  -- `ValidateGroups` accepts them.
  pub record Updates (s s' : S) : Type 0 where
    pub updated_user : Bytes
    pub new_pass : Bytes
    pub new_real : Bytes
    pub new_groups : Bytes
    pub hash_is : Bytes
    pub address_ok : term.validate_email updated_user ≡ true
    pub new_pass_ok : (is_empty new_pass || is_empty (validate_password new_pass)) ≡ true
    pub hash_ok :
        (if is_empty new_pass then some [] else term.hash_password new_pass) ≡ some hash_is
    pub new_groups_ok :
        (is_empty new_groups || is_empty (validate_groups new_groups (existing_group_names db s)))
        ≡ true
    pub updated : update_user db updated_user hash_is new_real new_groups s ≡ (done tt, s')

  new_hash-validate_password :
      (pass : Bytes) {hash : Bytes}
      → new_hash term db pass ≡ some hash
      → ((is_empty pass || is_empty (validate_password pass)) ≡ true)
        × ((if is_empty pass then some [] else term.hash_password pass) ≡ some hash)
  unfolding new_hash
  new_hash-validate_password pass h = ground (arith, h)

  update_checked-Sound :
      (user pass real groups : Bytes) (s : S)
      → Sound s (Updates s) (update_checked term db user pass real groups s)
  unfolding update_checked
  update_checked-Sound user pass real groups s = check-Sound _ (λ e. given-Sound _ (λ hash h.
      check-Sound _ (λ g.
        finish-Sound (update_user db user hash real groups s)
          (λ f s' q. update_user-error db user hash real groups s q)
          (λ s' q. record {
            updated_user = user;
            new_pass = pass;
            new_real = real;
            new_groups = groups;
            hash_is = hash;
            address_ok = e;
            new_pass_ok = (new_hash-validate_password pass h).0;
            hash_ok = (new_hash-validate_password pass h).1;
            new_groups_ok = g;
            updated = q;
          }))))

  update_asked-Sound :
      (user : Bytes) (s : S) (es : List Entry)
      → Sound s (Updates s) (update_asked term db user s es)
  unfolding update_asked
  update_asked-Sound user s es = ask-Sound (prompt_password_optional term es) (λ pass es1.
      ask-Sound (prompt_if_missing term [] es1) (λ real es2.
        ask-Sound (prompt_groups_optional db term s es2) (λ groups _.
          check-Sound (not (is_empty pass && (is_empty real && is_empty groups)))
            (λ _. update_checked-Sound user pass real groups s))))

  if-Sound :
      (b : Bool) {s : S} {P : S → Type 0} {x y : Run S}
      → Sound s P x
      → Sound s P y
      → Sound s P (if b then x else y)
  if-Sound true h k = h
  if-Sound false h k = k

  update_found-Sound :
      (args : UserArgs) (s : S) (user : Bytes) (es : List Entry)
      → Sound s (Updates s) (update_found term db args s user es)
  unfolding update_found update_given
  update_found-Sound args s user es = check-Sound (not (is_empty user)) (λ _.
      if-Sound (is_empty args.arg_pass && (is_empty args.arg_real_name && is_empty args.arg_groups))
        (update_asked-Sound user s es)
        (update_checked-Sound user args.arg_pass args.arg_real_name args.arg_groups s))

  -- `updateuser` waits for an answer, or fails and leaves the database as it was, or updates a user
  -- whose address is valid, with a new password that `ValidatePassword` accepts and whose hash is
  -- stored, and with groups that `ValidateGroups` accepts, where they are given.
  pub run_update_user-Sound :
      (args : UserArgs) (s : S) (es : List Entry)
      → Sound s (Updates s) (run_update_user term db args s es)
  unfolding run_update_user
  run_update_user-Sound args s es =
      ask-Sound (prompt_existing_user_email db term args.arg_user s es) (update_found-Sound args s)
