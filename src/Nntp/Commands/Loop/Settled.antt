-- ===== src/Nntp/Commands/Loop/Settled.antt =====
-- Where a session is, behind any lines of the client.
use mathlib.Core.Path.{subst}
use gonewsd.Prelude.{◌≡◌, sym, Bool, true, false, List, [], ◌∷◌, if◌then◌else◌, Bytes}
use gonewsd.Group.Types.{Env}
use gonewsd.Nntp.Commands.Fields.Keeping.{xover-KeepsPlace, xhdr-KeepsPlace, xpat-KeepsPlace}
use gonewsd.Nntp.Commands.Listing.Keeping.{
  list_command-KeepsPlace, newgroups-KeepsPlace, newnews-KeepsPlace,
}
use gonewsd.Nntp.Commands.Fields.{xover, xhdr, xpat}
use gonewsd.Nntp.Commands.Listing.{list_command, newgroups, newnews}
use gonewsd.Nntp.Commands.Login.{
  auth_simple_line, auth_info, capabilities, start_tls, compress, mode_command,
}
use gonewsd.Nntp.Commands.Login.Placing.{
  auth_simple_line-KeepsPlace, auth_info-KeepsPlace, start_tls-KeepsPlace, compress-KeepsPlace,
  mode_command-KeepsPlace,
}
use gonewsd.Nntp.Commands.Loop.{
  Command, login, caps, secure, shrink, feed, mode, list, list_group, match_header, xreplic, over,
  hdr, group, help, new_groups, new_news, next, last, post, date, quit, unknown, part, command_of,
  run_command, dispatch, handle_fields, handle_line, first_arg, other_args,
}
use gonewsd.Nntp.Commands.Posting.Rights.{post_command-conn}
use gonewsd.Nntp.Commands.Reading.Settled.{
  IsSettled, new_conn-IsSettled, KeepsPlace-IsSettled, group_command-IsSettled, listgroup-IsSettled,
  next_command-IsSettled, last_command-IsSettled, article_command-IsSettled,
}
use gonewsd.Nntp.Session.{Server, Conn, new_conn, Reaction, KeepsPlace}
use gonewsd.Spool.Disk.{Disk}

module _ (srv : Server) (conn : Conn) (disk : Disk) (h : IsSettled srv.env.cfg conn) where
  kept : (r : Reaction) → KeepsPlace conn r → IsSettled srv.env.cfg r.conn
  kept r k = KeepsPlace-IsSettled srv.env.cfg conn r k h

  run_command-IsSettled :
      (c : Command) (a b : Bytes) → IsSettled srv.env.cfg (run_command srv conn disk c a b).conn
  unfolding run_command capabilities
  run_command-IsSettled login a b =
      kept (auth_info srv conn disk a b) (auth_info-KeepsPlace srv conn disk a b)
  run_command-IsSettled secure a b =
      kept (start_tls srv conn disk) (start_tls-KeepsPlace srv conn disk)
  run_command-IsSettled shrink a b =
      kept (compress conn disk a) (compress-KeepsPlace srv conn disk a)
  run_command-IsSettled mode a b =
      kept (mode_command conn disk a) (mode_command-KeepsPlace srv conn disk a)
  run_command-IsSettled list a b =
      kept (list_command srv conn disk a b) (list_command-KeepsPlace srv conn disk a b)
  run_command-IsSettled match_header a b =
      kept (xpat srv conn disk a b) (xpat-KeepsPlace srv conn disk a b)
  run_command-IsSettled over a b = kept (xover srv conn disk a) (xover-KeepsPlace srv conn disk a)
  run_command-IsSettled hdr a b = kept (xhdr srv conn disk a b) (xhdr-KeepsPlace srv conn disk a b)
  run_command-IsSettled new_groups a b =
      kept (newgroups srv conn disk a b) (newgroups-KeepsPlace srv conn disk a b)
  run_command-IsSettled new_news a b =
      kept (newnews srv conn disk a b) (newnews-KeepsPlace srv conn disk a b)
  run_command-IsSettled caps a b = h
  run_command-IsSettled feed a b = h
  run_command-IsSettled xreplic a b = h
  run_command-IsSettled help a b = h
  run_command-IsSettled post a b = h
  run_command-IsSettled date a b = h
  run_command-IsSettled quit a b = h
  run_command-IsSettled unknown a b = h
  run_command-IsSettled list_group a b = listgroup-IsSettled srv conn disk h a b
  run_command-IsSettled group a b = group_command-IsSettled srv conn disk h a
  run_command-IsSettled next a b = next_command-IsSettled srv conn disk h
  run_command-IsSettled last a b = last_command-IsSettled srv conn disk h
  run_command-IsSettled (part p) a b = article_command-IsSettled srv conn disk h p a

  dispatch-IsSettled :
      (remote : Bytes) (c : Command) (a b input : Bytes)
      → IsSettled srv.env.cfg (dispatch srv conn disk remote c a b input).0.conn
  dispatch-IsSettled remote post a b input =
      subst (IsSettled srv.env.cfg) (sym (post_command-conn srv conn disk remote input)) h
  dispatch-IsSettled remote c a b input = run_command-IsSettled c a b

  chosen :
      (b : Bool) (x y : Reaction × Bytes)
      → IsSettled srv.env.cfg x.0.conn
      → IsSettled srv.env.cfg y.0.conn
      → IsSettled srv.env.cfg (if b then x else y).0.conn
  chosen true x y k l = k
  chosen false x y k l = l

  handle_fields-IsSettled :
      (remote : Bytes) (words : List Bytes) (input : Bytes)
      → IsSettled srv.env.cfg (handle_fields srv conn disk remote words input).0.conn
  unfolding handle_fields
  handle_fields-IsSettled remote [] input = h
  handle_fields-IsSettled remote (cmd ∷ args) input =
      chosen conn.auth_simple _ _
        (kept (auth_simple_line srv conn disk cmd (first_arg args))
          (auth_simple_line-KeepsPlace srv conn disk cmd (first_arg args)))
        (dispatch-IsSettled remote (command_of cmd) (first_arg args) (other_args args) input)

  handle_line-IsSettled :
      (remote text input : Bytes)
      → IsSettled srv.env.cfg (handle_line srv conn disk remote text input).0.conn
  unfolding handle_line
  handle_line-IsSettled remote text input = handle_fields-IsSettled remote _ input

-- The variables that a session can have. Between two lines other sessions may change the disk, and
-- the server may be given a new store: of the server only the settings stay.
pub data Reached (env : Env) : Conn → Type 0 where
  start : Reached env new_conn
  line :
      {conn : Conn} (srv : Server) (disk : Disk) (remote text input : Bytes)
      → srv.env ≡ env
      → Reached env conn
      → Reached env (handle_line srv conn disk remote text input).0.conn

-- In every session, behind any lines of the client and whatever other sessions do between them: a
-- current group that is valid has a valid name, and so has the group of a current article that is
-- valid, whose file is that of its number in the current group.
pub Reached-IsSettled : (env : Env) {conn : Conn} → Reached env conn → IsSettled env.cfg conn
Reached-IsSettled env start = new_conn-IsSettled env.cfg
Reached-IsSettled env (line {conn = conn} srv disk remote text input e r) =
    subst (λ (x : Env). IsSettled x.cfg (handle_line srv conn disk remote text input).0.conn) e
      (handle_line-IsSettled srv conn disk
        (subst (λ (x : Env). IsSettled x.cfg conn) (sym e) (Reached-IsSettled env r)) remote text
        input)
