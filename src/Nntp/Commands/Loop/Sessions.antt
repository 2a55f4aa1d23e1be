-- ===== src/Nntp/Commands/Loop/Sessions.antt =====
-- Who a session is for, behind each line of the client.
use gonewsd.Prelude.{◌⊎◌, inl, refl, ap, Bool, true, false, List, [], ◌∷◌, if◌then◌else◌, Bytes}
use gonewsd.Nntp.Commands.Fields.Keeping.{xover-KeepsSession, xhdr-KeepsSession, xpat-KeepsSession}
use gonewsd.Nntp.Commands.Listing.Keeping.{
  list_command-KeepsSession, newgroups-KeepsSession, newnews-KeepsSession,
}
use gonewsd.Nntp.Commands.Login.Changing.{
  LoggedIn, Change, auth_simple_line-Change, auth_info-Change, capabilities-KeepsSession,
  start_tls-KeepsSession, compress-KeepsSession, mode_command-KeepsSession,
}
use gonewsd.Nntp.Commands.Loop.{
  Command, login, caps, secure, shrink, feed, mode, list, list_group, match_header, xreplic, over,
  hdr, group, help, new_groups, new_news, next, last, post, date, quit, unknown, part, command_of,
  run_command, dispatch, handle_fields, handle_line, first_arg, other_args,
}
use gonewsd.Nntp.Commands.Posting.Rights.{post_command-conn}
use gonewsd.Nntp.Commands.Reading.Moving.{
  group_command-KeepsSession, listgroup-KeepsSession, next_command-KeepsSession,
  last_command-KeepsSession, article_command-KeepsSession,
}
use gonewsd.Nntp.Session.{Server, Conn, Reaction, KeepsSession}
use gonewsd.Spool.Disk.{Disk}

choose-Change :
    (srv : Server) (conn : Conn) (b : Bool) (x y : Reaction × Bytes)
    → Change srv conn x.0
    → Change srv conn y.0
    → Change srv conn (if b then x else y).0
choose-Change srv conn true x y h k = h
choose-Change srv conn false x y h k = k

module _ (srv : Server) (conn : Conn) (disk : Disk) where
  run_command-Change :
      (c : Command) (a b : Bytes) → Change srv conn (run_command srv conn disk c a b)
  unfolding run_command
  run_command-Change login a b = auth_info-Change srv conn disk a b
  run_command-Change caps a b = inl (capabilities-KeepsSession srv conn disk)
  run_command-Change secure a b = inl (start_tls-KeepsSession srv conn disk)
  run_command-Change shrink a b = inl (compress-KeepsSession srv conn disk a)
  run_command-Change mode a b = inl (mode_command-KeepsSession srv conn disk a)
  run_command-Change list a b = inl (list_command-KeepsSession srv conn disk a b)
  run_command-Change list_group a b = inl (listgroup-KeepsSession srv conn disk a b)
  run_command-Change match_header a b = inl (xpat-KeepsSession srv conn disk a b)
  run_command-Change over a b = inl (xover-KeepsSession srv conn disk a)
  run_command-Change hdr a b = inl (xhdr-KeepsSession srv conn disk a b)
  run_command-Change group a b = inl (group_command-KeepsSession srv conn disk a)
  run_command-Change new_groups a b = inl (newgroups-KeepsSession srv conn disk a b)
  run_command-Change new_news a b = inl (newnews-KeepsSession srv conn disk a b)
  run_command-Change next a b = inl (next_command-KeepsSession srv conn disk)
  run_command-Change last a b = inl (last_command-KeepsSession srv conn disk)
  run_command-Change (part p) a b = inl (article_command-KeepsSession srv conn disk p a)
  run_command-Change feed a b = inl refl
  run_command-Change xreplic a b = inl refl
  run_command-Change help a b = inl refl
  run_command-Change post a b = inl refl
  run_command-Change date a b = inl refl
  run_command-Change quit a b = inl refl
  run_command-Change unknown a b = inl refl

  dispatch-Change :
      (remote : Bytes) (c : Command) (a b input : Bytes)
      → Change srv conn (dispatch srv conn disk remote c a b input).0
  dispatch-Change remote post a b input =
      inl (ap (λ (c : Conn). c.session) (post_command-conn srv conn disk remote input))
  dispatch-Change remote c a b input = run_command-Change c a b

  handle_fields-Change :
      (remote : Bytes) (words : List Bytes) (input : Bytes)
      → Change srv conn (handle_fields srv conn disk remote words input).0
  unfolding handle_fields
  handle_fields-Change remote [] input = inl refl
  handle_fields-Change remote (cmd ∷ args) input =
      choose-Change srv conn conn.auth_simple _ _
        (auth_simple_line-Change srv conn disk cmd (first_arg args))
        (dispatch-Change remote (command_of cmd) (first_arg args) (other_args args) input)

  -- Behind a line of the client the session is the one before it, or it is a new one whose user has
  -- a name and a password that hold and whose groups are those of that user in the store.
  pub handle_line-Change :
      (remote text input : Bytes)
      → KeepsSession conn (handle_line srv conn disk remote text input).0
        ⊎ LoggedIn srv (handle_line srv conn disk remote text input).0.conn.session
  unfolding handle_line
  handle_line-Change remote text input = handle_fields-Change remote _ input
