-- ===== src/Cli.antt =====
-- cmd/gonewsd/authcli.go: the prompts of the commands on the user database. What is typed is a list
-- of entries; a prompt that finds none waits.
pub mod Commands
pub mod Grouping
pub mod Sound
pub mod Answers
use gonewsd.Prelude.{
  ℕ, Bool, true, false, not, ◌&&◌, ◌||◌, List, [], ◌∷◌, ◌++◌, Option, none, some, if◌then◌else◌,
  is_empty, Bytes, eq_bytes, str,
}
use gonewsd.Prelude.Int.{ℤ}
use gonewsd.Auth.Database.{Sql, Result, done, error}
use gonewsd.Auth.Database.Groups.{list_groups}
use gonewsd.Auth.Database.Users.{user_exists}
use gonewsd.Auth.Store.{Group}
use gonewsd.Auth.Validate.{invalid_group_names, validate_password}
use gonewsd.Config.Values.{is_int}
use gonewsd.Text.Scan.{atoi}
use gonewsd.Text.Strings.{to_lower, trim_space}

-- A line, or the end of the input or an interrupt.
pub data Entry : Type 0 where
  typed : Bytes → Entry
  closed : Entry

pub data Asked (A : Type 0) : Type 0 where
  got : A → List Entry → Asked A
  waiting : Asked A

-- Whether the input is a terminal, whether `readline.NewEx` succeeds on it, `auth.ValidateEmail`,
-- and `auth.HashPassword`, which can fail.
pub record Terminal : Type 0 where
  pub interactive : Bool
  pub readline : Bool
  pub validate_email : Bytes → Bool
  pub hash_password : Bytes → Option Bytes

abbrev pub entry_text : Entry → Bytes
entry_text (typed s) = trim_space s
entry_text closed = []

-- `prompt`
unfoldable pub prompt : List Entry → Asked Bytes
unfolding trim_space
prompt [] = waiting
prompt (e ∷ es) = got (entry_text e) es

-- The loops around `prompt`: a line is taken if `check` gives a value for it. The end of the input
-- reads as an empty line.
unfoldable pub prompt_loop : {A : Type 0} → (Bytes → Option A) → List Entry → Asked A
unfolding trim_space
prompt_loop check [] = waiting
prompt_loop check (e ∷ es) = elim (check (entry_text e)) [
  | some v ↦ got v es
  | none ↦ prompt_loop check es
]

-- The loops around `readline`, which the end of the input ends with an empty answer.
unfoldable pub readline_loop : (Bytes → Option Bytes) → List Entry → Asked Bytes
unfolding trim_space
readline_loop check [] = waiting
readline_loop check (closed ∷ es) = got [] es
readline_loop check (typed s ∷ es) = elim (check (trim_space s)) [
  | some v ↦ got v es
  | none ↦ readline_loop check es
]

abbrev pub required : (Bytes → Bool) → Bytes → Option Bytes
required valid s = if is_empty s then none else if valid s then some s else none

abbrev pub optional : (Bytes → Bool) → Bytes → Option Bytes
optional valid s = if is_empty s then some [] else if valid s then some s else none

-- `promptConfirmYN`
confirm : Bytes → Option Bool
unfolding to_lower eq_bytes
confirm s =
    let t = to_lower s in
    if eq_bytes t (str "y") then some true else if eq_bytes t (str "n") then some false else none

unfoldable pub prompt_confirm_yn : List Entry → Asked Bool
unfolding confirm trim_space
prompt_confirm_yn [] = waiting
prompt_confirm_yn (closed ∷ es) = got false es
prompt_confirm_yn (typed s ∷ es) = elim (confirm (trim_space s)) [
  | some b ↦ got b es
  | none ↦ prompt_confirm_yn es
]

module _ (term : Terminal) where
  abbrev pub line_loop : (Bytes → Option Bytes) → List Entry → Asked Bytes
  line_loop check es = if term.readline then readline_loop check es else prompt_loop check es

  -- A value that is given is kept if it is accepted, or if nobody can be asked.
  abbrev pub keep_or_ask : Bool → Bytes → (List Entry → Asked Bytes) → List Entry → Asked Bytes
  keep_or_ask accepted value ask es =
      if (not (is_empty value) && accepted) || not term.interactive then got value es else ask es

  unfoldable pub prompt_if_missing : Bytes → List Entry → Asked Bytes
  unfolding prompt
  prompt_if_missing value es = keep_or_ask true value prompt es

  unfoldable pub prompt_email_if_missing : Bytes → List Entry → Asked Bytes
  unfolding prompt_loop
  prompt_email_if_missing value es =
      keep_or_ask (term.validate_email value) value (prompt_loop (required term.validate_email)) es

  abbrev pub password_ok : Bytes → Bool
  password_ok p = is_empty (validate_password p)

  unfoldable pub prompt_password_if_missing : Bytes → List Entry → Asked Bytes
  unfolding prompt_loop validate_password
  prompt_password_if_missing value es =
      keep_or_ask (password_ok value) value (prompt_loop (required password_ok)) es

  unfoldable pub prompt_password_optional : List Entry → Asked Bytes
  unfolding prompt_loop readline_loop validate_password
  prompt_password_optional es =
      if not term.interactive then got [] es else line_loop (optional password_ok) es

module _ {S : Type 0} (db : Sql S) where
  group_names : List Group → List Bytes
  group_names [] = []
  group_names (g ∷ gs) = g.groupname ∷ group_names gs

  -- `existingGroupNames`: an error gives no names.
  unfoldable pub existing_group_names : S → List Bytes
  unfolding list_groups group_names
  existing_group_names s = elim (list_groups db s) [ done gs ↦ group_names gs | error _ ↦ [] ]

  has_text : Bytes → List Bytes → Bool
  unfolding eq_bytes
  has_text name [] = false
  has_text name (n ∷ ns) = eq_bytes n name || has_text name ns

  unfoldable pub group_exists : Bytes → S → Bool
  unfolding has_text existing_group_names
  group_exists name s = has_text name (existing_group_names s)

  -- `exists, _ := auth.UserExists(db, value)`
  is_user : Bytes → S → Bool
  unfolding user_exists
  is_user name s = elim (user_exists db name s) [ done b ↦ b | error _ ↦ false ]

  abbrev pub format_ok : Bytes → Bool
  format_ok name = is_empty (invalid_group_names name [])

  abbrev pub groups_ok : S → Bytes → Bool
  groups_ok s groups = is_empty (invalid_group_names groups (existing_group_names s))

  module _ (term : Terminal) where
    unfoldable pub prompt_existing_user_email : Bytes → S → List Entry → Asked Bytes
    unfolding is_user prompt_loop readline_loop
    prompt_existing_user_email value s es =
        let valid = λ (v : Bytes). term.validate_email v && is_user v s in
        keep_or_ask term (valid value) value (line_loop term (required valid)) es

    -- `promptExistingGroupName`
    unfoldable pub prompt_existing_group_name : Bytes → S → List Entry → Asked Bytes
    unfolding group_exists invalid_group_names prompt_loop readline_loop
    prompt_existing_group_name value s es =
        let valid = λ (v : Bytes). format_ok v && group_exists v s in
        keep_or_ask term (valid value) value (line_loop term (required valid)) es

    -- A name that is given is not looked for here.
    unfoldable pub prompt_new_group_name : Bytes → S → List Entry → Asked Bytes
    unfolding group_exists invalid_group_names prompt_loop readline_loop
    prompt_new_group_name value s es =
        let valid = λ (v : Bytes). format_ok v && not (group_exists v s) in
        keep_or_ask term (format_ok value) value (line_loop term (required valid)) es

    unfoldable pub prompt_groups_if_missing : Bytes → S → List Entry → Asked Bytes
    unfolding existing_group_names invalid_group_names prompt_loop readline_loop
    prompt_groups_if_missing value s es =
        keep_or_ask term (groups_ok s value) value (line_loop term (required (groups_ok s))) es

    unfoldable pub prompt_groups_optional : S → List Entry → Asked Bytes
    unfolding existing_group_names invalid_group_names prompt_loop readline_loop
    prompt_groups_optional s es =
        if not term.interactive then got [] es else line_loop term (optional (groups_ok s)) es
