-- ===== src/Nntp/Commands/Reading/Settled.antt =====
-- The current group has a valid name, and the current article is a file of it.
use gonewsd.Prelude.{
  ℕ, ◌+◌, ◌-◌, ◌%◌, ◌≡◌, refl, ap, ◌∙◌, Bool, true, false, not, ◌||◌, Option, none, some, arith,
  is_empty, Bytes, ltb, if◌then◌else◌,
}
use gonewsd.Article.Fields.Kept.{InPlace, load-InPlace}
use gonewsd.Auth.Validate.{valid_group_name}
use gonewsd.Config.{Config}
use gonewsd.Group.Articles.{Search, found, not_found, running, find_article_by_message_id}
use gonewsd.Group.Settings.{load_info_full}
use gonewsd.Group.Settings.Named.{load_info_full-HasName}
use gonewsd.Group.Types.{Group, Outcome, ok, fail}
use gonewsd.Nntp.Commands.Reading.{
  Part, with_group, group_command, listgroup, next_command, last_command, article_command, select,
  enter, load_article, list_current, list_selected, move_to, send_number, send_found, send_parsed,
  is_message_id, is_number,
}
use gonewsd.Nntp.Session.{Server, Conn, new_conn, Reaction, may_read, KeepsPlace}
use gonewsd.Spool.Disk.{Disk}
use gonewsd.Text.Decimal.{parse_uint, two64}

pub record IsSettled (cfg : Config) (conn : Conn) : Type 0 where
  pub named : conn.cur_group.valid ≡ true → valid_group_name conn.cur_group.name ≡ true
  pub in_group : conn.cur_article.valid ≡ true → valid_group_name conn.cur_group.name ≡ true
  pub in_place : InPlace cfg conn.cur_group.name conn.cur_article

pub new_conn-IsSettled : (cfg : Config) → IsSettled cfg new_conn
new_conn-IsSettled cfg = record {
  named = λ e. absurd cc;
  in_group = λ e. absurd cc;
  in_place = λ e. absurd cc;
}

-- What keeps the current group and article keeps them settled.
pub KeepsPlace-IsSettled :
    (cfg : Config) (conn : Conn) (r : Reaction)
    → KeepsPlace conn r
    → IsSettled cfg conn
    → IsSettled cfg r.conn
KeepsPlace-IsSettled cfg conn r (g, a) h = record {
  named = rw (g) h.named;
  in_group = rw (g, a) h.in_group;
  in_place = rw (g, a) h.in_place;
}

pub choose-IsSettled :
    (cfg : Config) (b : Bool) (x y : Reaction)
    → (b ≡ true → IsSettled cfg x.conn)
    → (b ≡ false → IsSettled cfg y.conn)
    → IsSettled cfg (if b then x else y).conn
choose-IsSettled cfg true x y h k = h refl
choose-IsSettled cfg false x y h k = k refl

module _ (srv : Server) (conn : Conn) (disk : Disk) where
  -- Any article of the current group may become the current one.
  moved-IsSettled :
      (n : ℕ)
      → valid_group_name conn.cur_group.name ≡ true
      → IsSettled srv.env.cfg conn
      → IsSettled srv.env.cfg
          (record conn { cur_article = load_article srv disk conn.cur_group.name n })
  moved-IsSettled n v h = record {
    named = h.named;
    in_group = λ _. v;
    in_place = load-InPlace srv.env.cfg srv.env.os disk conn.cur_group.name n;
  }

  enter-IsSettled :
      (g : Group) → valid_group_name g.name ≡ true → IsSettled srv.env.cfg (enter srv conn disk g)
  enter-IsSettled g v = record {
    named = λ _. v;
    in_group = λ _. v;
    in_place = load-InPlace srv.env.cfg srv.env.os disk g.name g.start;
  }

  with_group-IsSettled :
      (missing : Bytes) (r : Reaction)
      → IsSettled srv.env.cfg conn
      → (valid_group_name conn.cur_group.name ≡ true → IsSettled srv.env.cfg r.conn)
      → IsSettled srv.env.cfg (with_group srv conn disk missing r).conn
  with_group-IsSettled missing r h k =
      choose-IsSettled srv.env.cfg (not conn.cur_group.valid) _ _ (λ _. h)
        (λ v.
          choose-IsSettled srv.env.cfg (not (may_read srv conn.session conn.cur_group.name true)) _
            _ (λ _. h) (λ _. k (h.named (ground arith))))

  select-IsSettled :
      (name : Bytes) (r : Outcome Group)
      → ((g : Group) → r ≡ ok g → valid_group_name g.name ≡ true)
      → IsSettled srv.env.cfg conn
      → IsSettled srv.env.cfg (select srv conn name r disk).conn
  unfolding select
  select-IsSettled name (fail msg) v h = h
  select-IsSettled name (ok g) v h =
      choose-IsSettled srv.env.cfg (not (may_read srv conn.session name true)) _ _ (λ _. h)
        (λ _. enter-IsSettled g (v g refl))

  list_current-IsSettled :
      (range : Bytes)
      → IsSettled srv.env.cfg conn
      → IsSettled srv.env.cfg (list_current srv conn disk range).conn
  unfolding list_current
  list_current-IsSettled range h = with_group-IsSettled _ _ h (λ _. h)

  move_to-IsSettled :
      (code n : ℕ)
      → valid_group_name conn.cur_group.name ≡ true
      → IsSettled srv.env.cfg conn
      → IsSettled srv.env.cfg (move_to srv conn disk code n).conn
  unfolding move_to
  move_to-IsSettled code n v h =
      choose-IsSettled srv.env.cfg (not (load_article srv disk conn.cur_group.name n).valid) _ _
        (λ _. h) (λ _. moved-IsSettled n v h)

  send_number-IsSettled :
      (part : Part) (restore : Bool) (n : ℕ)
      → valid_group_name conn.cur_group.name ≡ true
      → IsSettled srv.env.cfg conn
      → IsSettled srv.env.cfg (send_number srv conn disk part restore n).conn
  unfolding send_number
  send_number-IsSettled part restore n v h =
      choose-IsSettled srv.env.cfg (ltb n conn.cur_group.start || ltb conn.cur_group.end n) _ _
        (λ _. h)
        (λ _.
          choose-IsSettled srv.env.cfg (not (load_article srv disk conn.cur_group.name n).valid) _ _
            (λ _. moved-IsSettled n v h) (λ _. sent restore))
    where
      sent :
          (b : Bool)
          → IsSettled srv.env.cfg (record conn {
            cur_article =
                if b
                then load_article srv disk conn.cur_group.name conn.cur_article.number
                else load_article srv disk conn.cur_group.name n;
          })
      sent true = moved-IsSettled conn.cur_article.number v h
      sent false = moved-IsSettled n v h

  send_found-IsSettled :
      (part : Part) (s : Search)
      → valid_group_name conn.cur_group.name ≡ true
      → IsSettled srv.env.cfg conn
      → IsSettled srv.env.cfg (send_found srv conn disk part s).conn
  unfolding send_found
  send_found-IsSettled part (found n) v h = send_number-IsSettled part true n v h
  send_found-IsSettled part not_found v h = h
  send_found-IsSettled part running v h = h

  send_parsed-IsSettled :
      (part : Part) (n : Option ℕ)
      → valid_group_name conn.cur_group.name ≡ true
      → IsSettled srv.env.cfg conn
      → IsSettled srv.env.cfg (send_parsed srv conn disk part n).conn
  unfolding send_parsed
  send_parsed-IsSettled part none v h = h
  send_parsed-IsSettled part (some n) v h = send_number-IsSettled part false n v h

list_selected-IsSettled :
    (srv : Server) (conn : Conn) (disk : Disk) (name range : Bytes) (r : Outcome Group)
    → ((g : Group) → r ≡ ok g → valid_group_name g.name ≡ true)
    → IsSettled srv.env.cfg conn
    → IsSettled srv.env.cfg (list_selected srv conn name range r disk).conn
unfolding list_selected
list_selected-IsSettled srv conn disk name range (fail msg) v h = h
list_selected-IsSettled srv conn disk name range (ok g) v h =
    choose-IsSettled srv.env.cfg (not (may_read srv conn.session name true)) _ _ (λ _. h)
      (λ _.
        list_current-IsSettled srv (enter srv conn disk g) disk range
          (enter-IsSettled srv conn disk g (v g refl)))

module _ (srv : Server) (conn : Conn) (disk : Disk) (h : IsSettled srv.env.cfg conn) where
  -- A group that is loaded under a valid name has that name.
  loaded_name :
      (name : Bytes)
      → valid_group_name name ≡ true
      → (g : Group) → (load_info_full srv.env name disk).0 ≡ ok g
      → valid_group_name g.name ≡ true
  loaded_name name v g e =
      ap valid_group_name ((load_info_full-HasName srv.env name disk).name_is g e) ∙ v

  pub group_command-IsSettled :
      (a : Bytes) → IsSettled srv.env.cfg (group_command srv conn disk a).conn
  unfolding group_command
  group_command-IsSettled a =
      choose-IsSettled srv.env.cfg (is_empty a) _ _ (λ _. h)
        (λ _.
          choose-IsSettled srv.env.cfg (not (valid_group_name a)) _ _ (λ _. h)
            (λ v.
              let load = load_info_full srv.env a disk in
              select-IsSettled srv conn load.1 a load.0 (loaded_name a (ground arith)) h))

  pub listgroup-IsSettled : (a b : Bytes) → IsSettled srv.env.cfg (listgroup srv conn disk a b).conn
  unfolding listgroup
  listgroup-IsSettled a b =
      choose-IsSettled srv.env.cfg (is_empty a) _ _ (λ _. list_current-IsSettled srv conn disk b h)
        (λ _.
          choose-IsSettled srv.env.cfg (not (valid_group_name a)) _ _ (λ _. h)
            (λ v.
              let load = load_info_full srv.env a disk in
              list_selected-IsSettled srv conn load.1 a b load.0 (loaded_name a (ground arith)) h))

  pub next_command-IsSettled : IsSettled srv.env.cfg (next_command srv conn disk).conn
  unfolding next_command
  next_command-IsSettled = with_group-IsSettled srv conn disk _ _ h (λ v.
      choose-IsSettled srv.env.cfg (not conn.cur_article.valid) _ _ (λ _. h)
        (λ _.
          choose-IsSettled srv.env.cfg _ _ _ (λ _. h)
            (λ _. move_to-IsSettled srv conn disk 421 ((conn.cur_article.number + 1) % two64) v h)))

  pub last_command-IsSettled : IsSettled srv.env.cfg (last_command srv conn disk).conn
  unfolding last_command
  last_command-IsSettled = with_group-IsSettled srv conn disk _ _ h (λ v.
      choose-IsSettled srv.env.cfg (not conn.cur_article.valid) _ _ (λ _. h)
        (λ _.
          choose-IsSettled srv.env.cfg _ _ _ (λ _. h)
            (λ _. move_to-IsSettled srv conn disk 422 (conn.cur_article.number - 1) v h)))

  pub article_command-IsSettled :
      (part : Part) (a : Bytes) → IsSettled srv.env.cfg (article_command srv conn disk part a).conn
  unfolding article_command
  article_command-IsSettled part a = with_group-IsSettled srv conn disk _ _ h (λ v.
      choose-IsSettled srv.env.cfg (is_empty a) _ _
        (λ _. send_number-IsSettled srv conn disk part true conn.cur_article.number v h)
        (λ _.
          choose-IsSettled srv.env.cfg (is_message_id a) _ _
            (λ _.
              send_found-IsSettled srv conn disk part
                (find_article_by_message_id srv.env disk conn.cur_group a) v h)
            (λ _.
              choose-IsSettled srv.env.cfg (is_number a) _ _
                (λ _. send_parsed-IsSettled srv conn disk part (parse_uint a) v h) (λ _. h))))
