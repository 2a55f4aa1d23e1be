-- ===== src/Nntp/Commands/Posting/Rights.antt =====
-- Who may post and cancel, and what a refusal leaves as it was.
use gonewsd.Prelude.{◌≤◌, ◌≡◌, refl, false, List, arith, length, drop, str, Bytes}
use gonewsd.Group.Articles.{
  Search, found, not_found, running, find_article_by_message_id, delete_article,
}
use gonewsd.Group.Headers.{get_header_value, update_path, parse_article}
use gonewsd.Group.Posting.{Posting, ended, endless, post}
use gonewsd.Group.Settings.{load_info_full}
use gonewsd.Group.Types.{Group, Outcome, ok, fail}
use gonewsd.Text.Strings.{trim_space}
use gonewsd.Nntp.Commands.Posting.{
  posted, cancelled, post_allowed, post_loaded, cancel_found, cancel_loaded, handle_cancel,
  post_article, post_message, or_nothing, post_body, post_command,
}
use gonewsd.Nntp.Session.{Server, Conn}
use gonewsd.Nntp.Wire.{Body, complete, broken, too_large, read_post_body_raw}
use gonewsd.Nntp.Wire.Consuming.{body_left, read_post_body_raw-left}
use gonewsd.Spool.Disk.{Disk}

post_body-left :
    (srv : Server) (conn : Conn) (disk : Disk) (remote : Bytes) (body : Body)
    → length (post_body srv conn disk remote body).1 ≤ body_left body
unfolding post_body
post_body-left srv conn disk remote (complete msg rest) = omega arith
post_body-left srv conn disk remote (broken _) = omega arith
post_body-left srv conn disk remote (too_large rest) = omega arith

-- `POST` leaves no more of the input than there was.
pub post_command-left :
    (srv : Server) (conn : Conn) (disk : Disk) (remote input : Bytes)
    → length (post_command srv conn disk remote input).1 ≤ length input
unfolding post_command
post_command-left srv conn disk remote input = omega (
  arith,
  post_body-left srv conn disk remote (read_post_body_raw input),
  read_post_body_raw-left input,
)

module _ (srv : Server) (conn : Conn) where
  posted-conn : (r : Posting) → (posted conn r).conn ≡ conn
  unfolding posted
  posted-conn (ended (ok _, disk)) = refl
  posted-conn (ended (fail _, disk)) = refl
  posted-conn (endless disk) = refl

  cancelled-conn : (disk : Disk) (r : Outcome Group × Disk) → (cancelled conn disk r).conn ≡ conn
  unfolding cancelled
  cancelled-conn disk (ok _, disk') = refl
  cancelled-conn disk (fail _, disk') = refl

  post_allowed-conn :
      (disk : Disk) (remote msg : Bytes) (headers body : List Bytes) (name : Bytes)
      → (post_allowed srv conn disk remote msg headers body name).conn ≡ conn
  unfolding post_allowed
  post_allowed-conn disk remote msg headers body name = ground (
    arith,
    posted-conn (post srv.env (update_path srv.env.cfg.server_name headers) body remote false disk),
  )

  post_loaded-conn :
      (remote msg : Bytes) (headers body : List Bytes) (name : Bytes) (r : Outcome Group × Disk)
      → (post_loaded srv conn remote msg headers body name r).conn ≡ conn
  unfolding post_loaded
  post_loaded-conn remote msg headers body name (fail e, disk) = refl
  post_loaded-conn remote msg headers body name (ok _, disk) =
      post_allowed-conn disk remote msg headers body name

  cancel_found-conn :
      (disk : Disk) (headers : List Bytes) (name : Bytes) (g : Group) (s : Search)
      → (cancel_found srv conn disk headers name g s).conn ≡ conn
  unfolding cancel_found
  cancel_found-conn disk headers name g (found n) =
      ground (arith, cancelled-conn disk (delete_article srv.env g n disk))
  cancel_found-conn disk headers name g not_found = refl
  cancel_found-conn disk headers name g running = refl

  cancel_loaded-conn :
      (headers : List Bytes) (msgid name : Bytes) (r : Outcome Group × Disk)
      → (cancel_loaded srv conn headers msgid name r).conn ≡ conn
  unfolding cancel_loaded
  cancel_loaded-conn headers msgid name (fail e, disk) = refl
  cancel_loaded-conn headers msgid name (ok g, disk) =
      cancel_found-conn disk headers name g (find_article_by_message_id srv.env disk g msgid)

  handle_cancel-conn :
      (disk : Disk) (headers : List Bytes) (msgid : Bytes)
      → (handle_cancel srv conn disk headers msgid).conn ≡ conn
  unfolding handle_cancel
  handle_cancel-conn disk headers msgid =
      let name = or_nothing (get_header_value headers (str "Newsgroups:")) in
      ground (arith, cancel_loaded-conn headers msgid name (load_info_full srv.env name disk))

  post_article-conn :
      (disk : Disk) (remote msg : Bytes) (headers body : List Bytes)
      → (post_article srv conn disk remote msg headers body).conn ≡ conn
  unfolding post_article
  post_article-conn disk remote msg headers body =
      let name = or_nothing (get_header_value headers (str "Newsgroups:")) in
      ground
        (arith, post_loaded-conn remote msg headers body name (load_info_full srv.env name disk))

  post_message-conn :
      (disk : Disk) (remote msg : Bytes) → (post_message srv conn disk remote msg).conn ≡ conn
  unfolding post_message
  post_message-conn disk remote msg =
      let (headers, body) = parse_article msg in
      let control = or_nothing (get_header_value headers (str "Control:")) in
      ground (
        arith,
        handle_cancel-conn disk headers (trim_space (drop 7 control)),
        post_article-conn disk remote msg headers body,
      )

  post_body-conn :
      (disk : Disk) (remote : Bytes) (body : Body)
      → (post_body srv conn disk remote body).0.conn ≡ conn
  unfolding post_body
  post_body-conn disk remote (complete msg rest) = post_message-conn disk remote msg
  post_body-conn disk remote (broken _) = refl
  post_body-conn disk remote (too_large rest) = refl

  pub post_command-conn :
      (disk : Disk) (remote input : Bytes) → (post_command srv conn disk remote input).0.conn ≡ conn
  unfolding post_command
  post_command-conn disk remote input = post_body-conn disk remote (read_post_body_raw input)
