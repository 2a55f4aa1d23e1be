-- ===== src/Cli/Grouping.antt =====
-- cmd/gonewsd/authcli.go: `runUpdateGroup` and its prompts.
use gonewsd.Prelude.{
  Bool, true, false, not, ◌&&◌, ◌||◌, List, [], ◌∷◌, Option, none, some, if◌then◌else◌, is_empty,
  Bytes, eq_bytes, str,
}
use gonewsd.Prelude.Int.{ℤ, pos, negsuc}
use gonewsd.Auth.Database.{Sql, Result, done, error, GroupInfo}
use gonewsd.Auth.Database.Groups.{get_group, upsert_group}
use gonewsd.Auth.Store.{Group}
use gonewsd.Cli.{
  Entry, typed, closed, Asked, got, waiting, Terminal, prompt, prompt_loop,
  prompt_existing_group_name, format_ok, group_exists,
}
use gonewsd.Cli.Commands.{Run, exit, ask, check, finish}
use gonewsd.Config.Values.{is_int}
use gonewsd.Text.Scan.{atoi}
use gonewsd.Text.Strings.{to_lower, trim_space}

is_perm : Bytes → Bool
unfolding eq_bytes
is_perm p = eq_bytes p (str "r") || (eq_bytes p (str "w") || eq_bytes p (str "rw"))

normalize_perm : Bytes → Bytes
unfolding is_perm to_lower trim_space
normalize_perm p = let t = trim_space (to_lower p) in if is_perm t then t else str "rw"

perm_loop : Bytes → List Entry → Asked Bytes
unfolding is_perm to_lower trim_space
perm_loop default_val [] = waiting
perm_loop default_val (closed ∷ es) = got default_val es
perm_loop default_val (typed s ∷ es) =
    let t = trim_space (to_lower s) in
    let rest = perm_loop default_val es in
    if is_empty t then got default_val es else if is_perm t then got t es else rest

-- Yes, no, or the value that there is; nothing where the line is not understood.
archived_of : Bool → Bytes → Option Bool
unfolding eq_bytes
archived_of current t =
    if is_empty t
    then some current
    else if eq_bytes t (str "y") || eq_bytes t (str "yes")
    then some true
    else if eq_bytes t (str "n") || eq_bytes t (str "no")
    then some false
    else none

archived_loop : Bool → List Entry → Asked Bool
unfolding archived_of to_lower trim_space
archived_loop current [] = waiting
archived_loop current (closed ∷ es) = got current es
archived_loop current (typed s ∷ es) = elim (archived_of current (trim_space (to_lower s))) [
  | some b ↦ got b es
  | none ↦ archived_loop current es
]

abbrev int_of : ℤ → Bytes → Option ℤ
int_of current line =
    if is_empty line then some current else if is_int line then some (atoi line) else none

abbrev or_current : Bytes → Asked Bytes → Asked Bytes
or_current current (got line es) = got (if is_empty line then current else line) es
or_current current waiting = waiting

module _ (term : Terminal) where
  prompt_perm_with_default : Bytes → List Entry → Asked Bytes
  unfolding perm_loop
  prompt_perm_with_default default_val es =
      if not term.interactive then got default_val es else perm_loop default_val es

  prompt_archived : Bool → List Entry → Asked Bool
  unfolding archived_loop
  prompt_archived current es =
      if not term.interactive then got current es else archived_loop current es

  prompt_string_with_default : Bytes → List Entry → Asked Bytes
  unfolding prompt
  prompt_string_with_default current es =
      if not term.interactive then got current es else or_current current (prompt es)

  prompt_int_with_default : ℤ → List Entry → Asked ℤ
  unfolding prompt_loop is_int atoi
  prompt_int_with_default current es =
      if not term.interactive then got current es else prompt_loop (int_of current) es

  -- The option if it is given, else what the prompt gives.
  perm_option : Bytes → Bytes → List Entry → Asked Bytes
  unfolding normalize_perm prompt_perm_with_default
  perm_option option current es =
      if not (is_empty option)
      then got (normalize_perm option) es
      else prompt_perm_with_default current es

  string_option : Bytes → Bytes → List Entry → Asked Bytes
  unfolding prompt_string_with_default
  string_option option current es =
      if not (is_empty option) then got option es else prompt_string_with_default current es

  -- A negative limit is no option.
  limit_option : ℤ → ℤ → List Entry → Asked ℤ
  unfolding prompt_int_with_default
  limit_option (pos n) current es = got (pos n) es
  limit_option (negsuc _) current es = prompt_int_with_default current es

  archived_option : Bool → Bool → List Entry → Asked Bool
  unfolding prompt_archived
  archived_option option current es = if option then got current es else prompt_archived current es

-- The options of `updategroup`.
pub record GroupArgs : Type 0 where
  pub arg_group : Bytes
  pub arg_g : Bytes
  pub arg_o : Bytes
  pub arg_archive : Bool
  pub arg_desc : Bytes
  pub arg_creator : Bytes
  pub arg_post_limit : ℤ
  pub arg_cc_post : Bytes
  pub arg_reply_to : Bytes
  pub arg_void_email : Bytes

-- The values that stand where nothing is given.
first_info : GroupArgs → Bytes → Option Group → GroupInfo
first_info args name none = record {
  info_group_perm = str "rw";
  info_world_perm = str "rw";
  info_archived = args.arg_archive;
  info_description = name;
  info_creator = str "-";
  info_post_limit = pos 1000;
  info_cc_post = str "-";
  info_reply_to = str "-";
  info_void_email = str "root";
}
first_info args name (some g) = record {
  info_group_perm = g.group_perm;
  info_world_perm = g.world_perm;
  info_archived = g.archived || args.arg_archive;
  info_description = g.description;
  info_creator = g.creator;
  info_post_limit = g.post_limit;
  info_cc_post = g.cc_post;
  info_reply_to = g.reply_to;
  info_void_email = g.void_email;
}

module _ {S : Type 0} (term : Terminal) (db : Sql S) where
  -- The questions, in the order in which they are put, and the change.
  update_fields : GroupArgs → Bytes → GroupInfo → S → List Entry → Run S
  unfolding ask finish perm_option string_option limit_option archived_option upsert_group
  update_fields args name i s es = ask (perm_option term args.arg_g i.info_group_perm es) s (λ g es.
      ask (perm_option term args.arg_o i.info_world_perm es) s (λ o es.
        ask (string_option term args.arg_desc i.info_description es) s (λ desc es.
          ask (string_option term args.arg_creator i.info_creator es) s (λ creator es.
            ask (limit_option term args.arg_post_limit i.info_post_limit es) s (λ limit es.
              ask (string_option term args.arg_cc_post i.info_cc_post es) s (λ cc_post es.
                ask (string_option term args.arg_reply_to i.info_reply_to es) s (λ reply_to es.
                  ask (string_option term args.arg_void_email i.info_void_email es) s
                    (λ void_email es.
                      ask (archived_option term args.arg_archive i.info_archived es) s
                        (λ archived es. finish (
                          upsert_group db name
                            (record {
                              info_group_perm = g;
                              info_world_perm = o;
                              info_archived = archived;
                              info_description = desc;
                              info_creator = creator;
                              info_post_limit = limit;
                              info_cc_post = cc_post;
                              info_reply_to = reply_to;
                              info_void_email = void_email;
                            })
                            s))))))))))

  update_existing : GroupArgs → Bytes → Result (Option Group) → S → List Entry → Run S
  unfolding update_fields first_info
  update_existing args name (error e) s es = exit 1 s
  update_existing args name (done found) s es =
      update_fields args name (first_info args name found) s es

  -- The group that is meant: the option, which has to be there, or an answer.
  update_named : GroupArgs → S → Bytes → List Entry → Run S
  unfolding check update_existing get_group
  update_named args s name es =
      check (not (is_empty name)) s (update_existing args name (get_group db name s) s es)

  unfoldable pub run_update_group : GroupArgs → S → List Entry → Run S
  unfolding ask check update_named prompt_existing_group_name group_exists
  run_update_group args s es =
      if not (is_empty args.arg_group)
      then check (format_ok db args.arg_group && group_exists db args.arg_group s) s
          (update_named args s args.arg_group es)
      else ask (prompt_existing_group_name db term args.arg_group s es) s (update_named args s)
