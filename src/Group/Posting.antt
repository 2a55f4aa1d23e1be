-- ===== src/Group/Posting.antt =====
-- `Post` of internal/group/group.go.
pub mod Placing
pub mod Ending
use gonewsd.Prelude.{
  ℕ, zero, suc, ◌+◌, ◌-◌, ◌%◌, Bool, true, false, not, ◌&&◌, ◌||◌, List, [], ◌∷◌, ◌++◌, Option,
  none, some, ◌==◌, ltb, leb, if◌then◌else◌, is_empty, length, Bytes, FilePath, eq_bytes, str,
}
use gonewsd.Config.{Config}
use gonewsd.Text.Decimal.{two64, format_uint}
use gonewsd.Text.Scanner.{render_lines}
use gonewsd.Spool.Names.{get_article_path, drop_last, dirname}
use gonewsd.Spool.Disk.{
  Disk, Os, Written, written, already_there, failed, create_file, make_dir, exists, stat,
}
use gonewsd.Group.Types.{
  Group, no_group, Verdict, accepts, rejects, not_started, Env, Outcome, ok, fail, M, pure, raise,
  run_next, or_else, ◌>>=◌, ◌>>◌, take_lock,
}
use gonewsd.Group.Headers.{get_header_value, get_header_index}
use gonewsd.Group.Info.{load_info, save_info}
use gonewsd.Group.Settings.{load_config}

-- `append(headers[:i], headers[i+1:]...)`
unfoldable pub remove_at : ℕ → List Bytes → List Bytes
remove_at i [] = []
remove_at zero (h ∷ hs) = hs
remove_at (suc i) (h ∷ hs) = h ∷ remove_at i hs

abbrev drop_header : Option ℕ → List Bytes → List Bytes
drop_header none hs = hs
drop_header (some i) hs = remove_at i hs

-- `if dateIdx >= 0 && hostIdx < dateIdx { dateIdx-- }`
abbrev shifted : Option ℕ → Option ℕ → Option ℕ
shifted none date = date
shifted (some host) none = none
shifted (some host) (some date) = if ltb host date then some (date - 1) else some date

abbrev is_some : Option ℕ → Bool
is_some none = false
is_some (some _) = true

abbrev add_if : Bool → Bytes → List Bytes → List Bytes
add_if b h hs = if b then hs ++ h ∷ [] else hs

abbrev lacks_header : Bytes → List Bytes → Bool
lacks_header name hs = elim (get_header_value hs name) [ none ↦ true | some _ ↦ false ]

-- The headers that are stored: what the client sent, less its date and posting host, and what the
-- server adds.
unfoldable pub stored_headers : Env → Bytes → ℕ → List Bytes → ℕ → Bytes → Bool → List Bytes
unfolding remove_at get_header_index get_header_value format_uint
stored_headers env postgroup msgnum headers body_length remote_ip preserve_date =
    let date_idx = get_header_index headers (str "Date:") in
    let host_idx = get_header_index headers (str "NNTP-Posting-Host:") in
    let date_flag = is_some date_idx in
    let h1 = drop_header host_idx headers in
    let date_idx' = shifted host_idx date_idx in
    let h2 = if is_some date_idx' && not preserve_date then drop_header date_idx' h1 else h1 in
    let number = format_uint msgnum in
    let h3 =
      h2
      ++ (str "Xref: " ++ (env.cfg.server_name ++ (str " " ++ (postgroup ++ (str ":" ++ number)))))
        ∷ [] in
    let h4 = add_if (not preserve_date || not date_flag) (str "Date: " ++ env.date_rfc822) h3 in
    let h5 = h4 ++ (str "NNTP-Posting-Host: " ++ remote_ip) ∷ [] in
    let id =
      str "Message-ID: <"
      ++ (number ++ (str "-" ++ (postgroup ++ (str "@" ++ (env.cfg.server_name ++ str ">"))))) in
    let h6 = add_if (lacks_header (str "Message-ID:") h5) id h5 in
    add_if (lacks_header (str "Lines:") h6) (str "Lines: " ++ format_uint body_length) h6

-- The bytes of the file: the header lines, an empty line, the body lines.
unfoldable pub article_text : List Bytes → List Bytes → Bytes
article_text headers body = render_lines headers ++ (b'\n' ∷ render_lines body)

run_filter : Env → List Bytes → List Bytes → M (Unit {0})
unfolding article_text
run_filter env headers body =
    if is_empty env.cfg.spam_filter
    then pure tt
    else elim (env.spam_filter (article_text headers body)) [
      | accepts ↦ pure tt
      | rejects ↦ raise (str "spam filter rejected message")
      | not_started ↦ raise (str "spam filter command failed to execute")
    ]

-- With `MsgModDirs` the directory of the thousand is made if it is not there.
mod_dir : Env → FilePath → M (Unit {0})
unfolding stat make_dir drop_last
mod_dir env path d =
    let parent = drop_last path in
    if env.cfg.msg_mod_dirs && not (exists (stat d parent))
    then elim (make_dir env.os parent d) [
      | written d' ↦ (ok tt, d')
      | _ ↦ (fail (env.os.error_text parent), d)
    ]
    else (ok tt, d)

-- What a round of the loop comes to: a file made under a number, the next number, or an error.
pub data Try : Type 0 where
  made : Disk → Try
  taken : Disk → Try
  refused : Bytes → Disk → Try

abbrev try_created : Bytes → Disk → Written → Try
try_created msg d (written d') = made d'
try_created msg d already_there = taken d
try_created msg d failed = refused msg d

abbrev try_behind : Env → FilePath → Bytes → Outcome (Unit {0}) × Disk → Try
try_behind env path text (fail msg, d) = refused msg d
try_behind env path text (ok _, d) =
    try_created (env.os.error_text path) d (create_file env.os path text d)

unfoldable pub try_number : Env → Bytes → (ℕ → Bytes) → ℕ → Disk → Try
unfolding mod_dir create_file get_article_path
try_number env postgroup text msgnum d =
    let path = get_article_path env.cfg postgroup msgnum in
    try_behind env path (text msgnum) (mod_dir env path d)

-- The number of the new article.
pub data Placed : Type 0 where
  placed : ℕ → Disk → Placed
  not_placed : Bytes → Disk → Placed
  searching : Disk → Placed

abbrev after_try : (Disk → Placed) → ℕ → Try → Placed
after_try next n (made d) = placed n d
after_try next n (taken d) = next d
after_try next n (refused msg d) = not_placed msg d

-- `for msgnum = g.End + 1; ; msgnum++`
unfoldable pub place_onto : Env → Bytes → (ℕ → Bytes) → ℕ → ℕ → Disk → Placed
unfolding try_number
place_onto env postgroup text zero msgnum d = searching d
place_onto env postgroup text (suc f) msgnum d =
    after_try (λ d'. place_onto env postgroup text f ((msgnum + 1) % two64) d') msgnum
      (try_number env postgroup text msgnum d)

-- `g.Start`, `g.End` and `g.Total` behind the new article.
unfoldable pub add_article : Group → ℕ → Group
add_article g msgnum = record g {
  start = if g.total == 0 && g.start == 0 then 1 else g.start;
  end = msgnum;
  total = (g.total + 1) % two64;
}

-- What `Post` comes to: its error or the group behind it, or a loop that finds no free number
-- among all those of 64 bits and so has no end.
pub data Posting : Type 0 where
  ended : Outcome Group × Disk → Posting
  endless : Disk → Posting

-- Behind the loop; the post command changes nothing that is modelled.
finish_post : Env → Group → Placed → Posting
unfolding add_article save_info
finish_post env g (placed n d) =
    let g' = add_article g n in ended (run_next (save_info env g' d) (λ _. pure g'))
finish_post env g (not_placed msg d) = ended (fail msg, d)
finish_post env g (searching d) = endless d

-- The loop has as many rounds as there are numbers of 64 bits: behind them every number has been
-- taken, and the loop of the source goes on.
write_article :
    Env → Bytes → List Bytes → List Bytes → Bytes → Bool → Outcome Group × Disk → Posting
unfolding place_onto finish_post stored_headers article_text
write_article env postgroup headers body remote_ip preserve_date (fail msg, d) = ended (fail msg, d)
write_article env postgroup headers body remote_ip preserve_date (ok g, d) = finish_post env g (
    place_onto env postgroup
      (λ n.
        article_text (stored_headers env postgroup n headers (length body) remote_ip preserve_date)
          body)
      two64 ((g.end + 1) % two64) d)

-- What stands before the loop.
prepare_post : Env → Bytes → List Bytes → List Bytes → M Group
unfolding take_lock load_info load_config run_filter
prepare_post env postgroup headers body = do
  take_lock env postgroup
  g ←
      or_else (load_info env false (record no_group { name = postgroup }) postgroup)
        (str "no such group")
  g' ← or_else (load_config env false g) (str "no such group")
  run_filter env headers body
  pure (record g' { valid = true })

unfoldable pub post : Env → List Bytes → List Bytes → Bytes → Bool → Disk → Posting
unfolding get_header_value prepare_post write_article
post env headers body remote_ip preserve_date d =
    elim (get_header_value headers (str "Newsgroups:")) [
      | none ↦ ended (fail (str "article has no 'Newsgroups' field"), d)
      | some postgroup ↦
          write_article env postgroup headers body remote_ip preserve_date
            (prepare_post env postgroup headers body d)
    ]
