-- ===== src/Nntp/Commands/Reading/Moving.antt =====
-- What the commands that read leave as it was.
use gonewsd.Prelude.{ℕ, refl, Bool, true, false, Option, none, some, arith, Bytes, ◌+◌, ◌-◌, ◌%◌}
use gonewsd.Group.Articles.{Search, found, not_found, running, find_article_by_message_id}
use gonewsd.Group.Settings.{load_info_full}
use gonewsd.Group.Types.{Group, Outcome, ok, fail}
use gonewsd.Nntp.Commands.Reading.{
  Part, group_command, listgroup, next_command, last_command, article_command, select, enter,
  list_current, list_selected, move_to, send_number, send_found, send_parsed,
}
use gonewsd.Nntp.Session.{Server, Conn, KeepsSession}
use gonewsd.Spool.Disk.{Disk}
use gonewsd.Text.Decimal.{parse_uint, two64}

module _ (srv : Server) (conn : Conn) (disk : Disk) where
  select-KeepsSession :
      (name : Bytes) (r : Outcome Group) → KeepsSession conn (select srv conn name r disk)
  unfolding select
  select-KeepsSession name (fail msg) = refl
  select-KeepsSession name (ok g) = ground arith

  list_current-KeepsSession : (range : Bytes) → KeepsSession conn (list_current srv conn disk range)
  unfolding list_current
  list_current-KeepsSession range = ground arith

  move_to-KeepsSession : (code n : ℕ) → KeepsSession conn (move_to srv conn disk code n)
  unfolding move_to
  move_to-KeepsSession code n = ground arith

  send_number-KeepsSession :
      (part : Part) (restore : Bool) (n : ℕ)
      → KeepsSession conn (send_number srv conn disk part restore n)
  unfolding send_number
  send_number-KeepsSession part restore n = ground arith

  send_found-KeepsSession :
      (part : Part) (s : Search) → KeepsSession conn (send_found srv conn disk part s)
  unfolding send_found
  send_found-KeepsSession part (found n) = send_number-KeepsSession part true n
  send_found-KeepsSession part not_found = refl
  send_found-KeepsSession part running = refl

  send_parsed-KeepsSession :
      (part : Part) (n : Option ℕ) → KeepsSession conn (send_parsed srv conn disk part n)
  unfolding send_parsed
  send_parsed-KeepsSession part none = refl
  send_parsed-KeepsSession part (some n) = send_number-KeepsSession part false n

list_selected-KeepsSession :
    (srv : Server) (conn : Conn) (disk : Disk) (name range : Bytes) (r : Outcome Group)
    → KeepsSession conn (list_selected srv conn name range r disk)
unfolding list_selected
list_selected-KeepsSession srv conn disk name range (fail msg) = refl
list_selected-KeepsSession srv conn disk name range (ok g) =
    ground (arith, list_current-KeepsSession srv (enter srv conn disk g) disk range)

module _ (srv : Server) (conn : Conn) (disk : Disk) where
  pub group_command-KeepsSession : (a : Bytes) → KeepsSession conn (group_command srv conn disk a)
  unfolding group_command
  group_command-KeepsSession a =
      let (r, disk') = load_info_full srv.env a disk in
      ground (arith, select-KeepsSession srv conn disk' a r)

  pub listgroup-KeepsSession : (a b : Bytes) → KeepsSession conn (listgroup srv conn disk a b)
  unfolding listgroup
  listgroup-KeepsSession a b =
      let (r, disk') = load_info_full srv.env a disk in
      ground (
        arith,
        list_selected-KeepsSession srv conn disk' a b r,
        list_current-KeepsSession srv conn disk b,
      )

  pub next_command-KeepsSession : KeepsSession conn (next_command srv conn disk)
  unfolding next_command
  next_command-KeepsSession =
      ground (arith, move_to-KeepsSession srv conn disk 421 ((conn.cur_article.number + 1) % two64))

  pub last_command-KeepsSession : KeepsSession conn (last_command srv conn disk)
  unfolding last_command
  last_command-KeepsSession =
      ground (arith, move_to-KeepsSession srv conn disk 422 (conn.cur_article.number - 1))

  pub article_command-KeepsSession :
      (part : Part) (a : Bytes) → KeepsSession conn (article_command srv conn disk part a)
  unfolding article_command
  article_command-KeepsSession part a = ground (
    arith,
    send_number-KeepsSession srv conn disk part true conn.cur_article.number,
    send_found-KeepsSession srv conn disk part
        (find_article_by_message_id srv.env disk conn.cur_group a),
    send_parsed-KeepsSession srv conn disk part (parse_uint a),
  )
