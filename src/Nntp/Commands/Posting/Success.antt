-- ===== src/Nntp/Commands/Posting/Success.antt =====
-- What the reply 240 says: the tests that a message has passed.
use mathlib.Core.Path.{subst}
use gonewsd.Prelude.{
  ℕ, ◌≡◌, refl, sym, true, false, Option-cases, inl, inr, List, none, arith, is_empty, str, Bytes,
}
use gonewsd.Article.Fields.{get_raw_header}
use gonewsd.Auth.Validate.{valid_group_name}
use gonewsd.Group.Articles.{
  Search, found, not_found, running, find_article_by_message_id, delete_article,
}
use gonewsd.Group.Headers.{get_header_value, update_path}
use gonewsd.Group.Posting.{Posting, ended, endless, post}
use gonewsd.Group.Settings.{load_info_full}
use gonewsd.Group.Types.{Group, Outcome, ok, fail}
use gonewsd.Nntp.Commands.Posting.{
  posted, cancelled, post_allowed, post_loaded, cancel_found, cancel_loaded, handle_cancel,
  post_article, or_nothing, same_from, from_fault, over_limit, post_limit,
}
use gonewsd.Nntp.Session.{Server, Conn, has_code, Reaction, may_post}
use gonewsd.Nntp.Wire.{count_post_lines}
use gonewsd.Spool.Disk.{Disk}

abbrev pub newsgroups : List Bytes → Bytes
newsgroups headers = or_nothing (get_header_value headers (str "Newsgroups:"))

-- An article of the group that is loaded: it was found under its id, its `From` is that of the
-- cancelling message, and the removal of its file succeeds.
pub record Removes (srv : Server) (headers : List Bytes) (msgid : Bytes)
    (load : Outcome Group × Disk) (after : Disk) : Type 0 where
  pub group : Group
  pub number : ℕ
  pub loaded : Disk
  pub load_is : load ≡ (ok group, loaded)
  pub search_is : find_article_by_message_id srv.env loaded group msgid ≡ found number
  pub author :
      same_from
        (or_nothing (get_header_value headers (str "From:")))
        (get_raw_header srv.env.cfg srv.env.os loaded (newsgroups headers) number (str "From"))
      ≡ true
  pub deleted : (g' : Group) × (delete_article srv.env group number loaded ≡ (ok g', after))

pub record Cancels (srv : Server) (conn : Conn) (disk : Disk) (headers : List Bytes) (msgid : Bytes)
    (after : Disk) : Type 0 where
  pub name_valid : valid_group_name (newsgroups headers) ≡ true
  pub may : may_post srv conn.session (newsgroups headers) true ≡ true
  pub removes : Removes srv headers msgid (load_info_full srv.env (newsgroups headers) disk) after

cancelled-ok :
    (conn : Conn) (disk : Disk) (r : Outcome Group × Disk)
    → has_code 240 (cancelled conn disk r).out ≡ true
    → (g' : Group) × (r ≡ (ok g', (cancelled conn disk r).disk))
unfolding cancelled
cancelled-ok conn disk (ok g', d) h = (g', refl)
cancelled-ok conn disk (fail _, d) h = absurd (ground arith)

module _ (srv : Server) (conn : Conn) (headers : List Bytes) (msgid : Bytes) where
  cancel_found-ok :
      (disk : Disk) (g : Group) (s : Search)
      → has_code 240 (cancel_found srv conn disk headers (newsgroups headers) g s).out ≡ true
      → find_article_by_message_id srv.env disk g msgid ≡ s
      → Removes srv headers msgid
          (ok g, disk)
          (cancel_found srv conn disk headers (newsgroups headers) g s).disk
  unfolding cancel_found
  cancel_found-ok disk g (found n) h e =
      let same : same_from (or_nothing (get_header_value headers (str "From:")))
            (get_raw_header srv.env.cfg srv.env.os disk (newsgroups headers) n (str "From"))
          ≡ true =
        ground arith in
      rw same (record {
        group = g;
        number = n;
        loaded = disk;
        load_is = refl;
        search_is = e;
        author = same;
        deleted = cancelled-ok conn disk (delete_article srv.env g n disk) (rw same at h);
      })
  cancel_found-ok disk g not_found h e = absurd (ground arith)
  cancel_found-ok disk g running h e = absurd (ground arith)

  cancel_loaded-ok :
      (o : Outcome Group × Disk)
      → has_code 240 (cancel_loaded srv conn headers msgid (newsgroups headers) o).out ≡ true
      → Removes srv headers msgid o
          (cancel_loaded srv conn headers msgid (newsgroups headers) o).disk
  unfolding cancel_loaded
  cancel_loaded-ok (fail e, disk) h = absurd (ground arith)
  cancel_loaded-ok (ok g, disk) h = cancel_found-ok disk g _ h refl

  -- A cancelling message that is answered with 240 names a valid group that the session may post
  -- to, the group is loaded, an article is found in it under the id, its `From` is that of the
  -- message, and the removal of its file succeeds; the disk is as the removal leaves it.
  pub handle_cancel-Cancels :
      (disk : Disk)
      → has_code 240 (handle_cancel srv conn disk headers msgid).out ≡ true
      → Cancels srv conn disk headers msgid (handle_cancel srv conn disk headers msgid).disk
  unfolding handle_cancel
  handle_cancel-Cancels disk h =
      let name = newsgroups headers in
      let filled : is_empty name ≡ false = ground arith in
      let good : valid_group_name name ≡ true = ground arith in
      let may : may_post srv conn.session name true ≡ true = ground arith in
      let load = load_info_full srv.env name disk in
      let passed : handle_cancel srv conn disk headers msgid
          ≡ cancel_loaded srv conn headers msgid name load =
        rw (filled, good, may) refl in
      record {
        name_valid = good;
        may = may;
        removes =
            subst (λ (r : Reaction). Removes srv headers msgid load r.disk) (sym passed)
              (cancel_loaded-ok load
                (subst (λ (r : Reaction). has_code 240 r.out ≡ true) passed h));
      }

-- What a posted message has passed, and what `Post` made of it.
pub record Posts (srv : Server) (conn : Conn) (remote msg : Bytes) (headers body : List Bytes)
    (load : Outcome Group × Disk) (after : Disk) : Type 0 where
  pub group : Group
  pub loaded : Disk
  pub load_is : load ≡ (ok group, loaded)
  pub may : may_post srv conn.session (newsgroups headers) true ≡ true
  pub author : from_fault srv conn.session headers ≡ none
  pub short : over_limit (post_limit conn) (count_post_lines msg) ≡ false
  pub stored :
      (g' : Group) × (post srv.env
          (update_path srv.env.cfg.server_name headers)
          body
          remote
          false
          loaded
        ≡ ended (ok g', after))

posted-ok :
    (conn : Conn) (r : Posting)
    → has_code 240 (posted conn r).out ≡ true
    → (g' : Group) × (r ≡ ended (ok g', (posted conn r).disk))
unfolding posted
posted-ok conn (ended (ok g', d)) h = (g', refl)
posted-ok conn (ended (fail _, d)) h = absurd (ground arith)
posted-ok conn (endless d) h = absurd (ground arith)

module _ (srv : Server) (conn : Conn) (remote msg : Bytes) (headers body : List Bytes) where
  post_allowed-ok :
      (disk : Disk) (g : Group)
      → has_code 240 (post_allowed srv conn disk remote msg headers body (newsgroups headers)).out
        ≡ true
      → Posts srv conn remote msg headers body
          (ok g, disk)
          (post_allowed srv conn disk remote msg headers body (newsgroups headers)).disk
  unfolding post_allowed
  post_allowed-ok disk g h =
      let may : may_post srv conn.session (newsgroups headers) true ≡ true = ground arith in
      elim (Option-cases (from_fault srv conn.session headers)) [
        | inl author ↦
            let short : over_limit (post_limit conn) (count_post_lines msg) ≡ false =
              ground arith in
            let result =
              post srv.env (update_path srv.env.cfg.server_name headers) body remote false disk in
            let passed : post_allowed srv conn disk remote msg headers body (newsgroups headers)
                ≡ posted conn result =
              rw (may, author, short) refl in
            record {
              group = g;
              loaded = disk;
              load_is = refl;
              may = may;
              author = author;
              short = short;
              stored =
                  subst
                    (λ (r : Reaction).
                      (g' : Group) × (post srv.env (update_path srv.env.cfg.server_name headers)
                          body remote false disk
                        ≡ ended (ok g', r.disk)))
                    (sym passed)
                    (posted-ok conn result
                      (subst (λ (r : Reaction). has_code 240 r.out ≡ true) passed h));
            }
        | inr (fault, e) ↦ absurd (ground arith)
      ]

  post_loaded-ok :
      (load : Outcome Group × Disk)
      → has_code 240 (post_loaded srv conn remote msg headers body (newsgroups headers) load).out
        ≡ true
      → Posts srv conn remote msg headers body load
          (post_loaded srv conn remote msg headers body (newsgroups headers) load).disk
  unfolding post_loaded
  post_loaded-ok (fail e, disk) h = absurd (ground arith)
  post_loaded-ok (ok g, disk) h = post_allowed-ok disk g h

  -- A message that is answered with 240 names a valid group, the group is loaded, the session may
  -- post to it, its `From` is no fault, the lines are within the limit of the session's current
  -- group (whatever group is posted to; there is no limit without a current group, or where its limit
  -- is not above 0), and `Post` has succeeded on the headers with the server in their path; the disk
  -- is as `Post` leaves it.
  pub post_article-Posts :
      (disk : Disk)
      → has_code 240 (post_article srv conn disk remote msg headers body).out ≡ true
      → (valid_group_name (newsgroups headers) ≡ true)
        × Posts srv conn remote msg headers body
            (load_info_full srv.env (newsgroups headers) disk)
            (post_article srv conn disk remote msg headers body).disk
  unfolding post_article
  post_article-Posts disk h =
      let name = newsgroups headers in
      let filled : is_empty name ≡ false = ground arith in
      let good : valid_group_name name ≡ true = ground arith in
      let load = load_info_full srv.env name disk in
      let passed : post_article srv conn disk remote msg headers body
          ≡ post_loaded srv conn remote msg headers body name load =
        rw (filled, good) refl in
      (
        good,
        subst (λ (r : Reaction). Posts srv conn remote msg headers body load r.disk) (sym passed)
            (post_loaded-ok load (subst (λ (r : Reaction). has_code 240 r.out ≡ true) passed h)),
      )
