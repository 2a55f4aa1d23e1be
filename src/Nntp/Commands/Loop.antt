-- ===== src/Nntp/Commands/Loop.antt =====
-- The loop of `handleConn`: a line is read, taken apart and dispatched.
pub mod Total
pub mod Access
pub mod Sessions
pub mod Settled
use gonewsd.Prelude.{
  ℕ, zero, suc, ◌+◌, Bool, true, false, not, ◌&&◌, ◌||◌, List, [], ◌∷◌, ◌++◌, ◌==◌, if◌then◌else◌,
  is_empty, length, Bytes, eq_bytes, str,
}
use gonewsd.Spool.Disk.{Disk}
use gonewsd.Nntp.Commands.Fields.{xover, xhdr, xpat}
use gonewsd.Nntp.Commands.Listing.{list_command, newgroups, newnews}
use gonewsd.Nntp.Commands.Login.{
  auth_simple_line, auth_info, capabilities, start_tls, compress, mode_command,
}
use gonewsd.Nntp.Commands.Posting.{post_command}
use gonewsd.Nntp.Commands.Reading.{
  group_command, listgroup, next_command, last_command, article_command, Part, article, head, body,
  stat_only,
}
use gonewsd.Nntp.Session.{
  Server, Conn, new_conn, Out, status, line, dot, Next, go_on, closed, hung, Reaction, reply,
  refuse,
}
use gonewsd.Nntp.Wire.{Read, got, eof, read_line_raw}
use gonewsd.Text.Split.{fields, join}
use gonewsd.Text.Strings.{to_upper, trim_right}

-- The cases of the switch.
pub data Command : Type 0 where
  login caps secure shrink feed mode list list_group match_header xreplic : Command
  over hdr group help new_groups new_news next last post date quit unknown : Command
  part : Part → Command

abbrev names : List (Bytes × Command)
names =
    (str "AUTHINFO", login)
    ∷ (str "CAPABILITIES", caps)
    ∷ (str "STARTTLS", secure)
    ∷ (str "COMPRESS", shrink)
    ∷ (str "CHECK", feed)
    ∷ (str "TAKETHIS", feed)
    ∷ (str "MODE", mode)
    ∷ (str "LIST", list)
    ∷ (str "LISTGROUP", list_group)
    ∷ (str "XPAT", match_header)
    ∷ (str "XREPLIC", xreplic)
    ∷ (str "XOVER", over)
    ∷ (str "OVER", over)
    ∷ (str "XHDR", hdr)
    ∷ (str "HDR", hdr)
    ∷ (str "GROUP", group)
    ∷ (str "HELP", help)
    ∷ (str "NEWGROUPS", new_groups)
    ∷ (str "NEWNEWS", new_news)
    ∷ (str "NEXT", next)
    ∷ (str "LAST", last)
    ∷ (str "HEAD", part head)
    ∷ (str "BODY", part body)
    ∷ (str "ARTICLE", part article)
    ∷ (str "STAT", part stat_only)
    ∷ (str "POST", post)
    ∷ (str "DATE", date)
    ∷ (str "QUIT", quit)
    ∷ []

find_command : Bytes → List (Bytes × Command) → Command
find_command cmd [] = unknown
find_command cmd ((n, c) ∷ rest) =
    let other = find_command cmd rest in if eq_bytes cmd n then c else other

-- `strings.ToUpper(cmd)` and the labels of the switch
unfoldable pub command_of : Bytes → Command
unfolding find_command to_upper eq_bytes
command_of cmd = find_command (to_upper cmd) names

help_lines : List Out
help_lines =
    status 100 (str "help text follows")
    ∷ line (str "ARTICLE [msg#|<msgid>]")
    ∷ line (str "AUTHINFO [user|pass] <value>")
    ∷ line (str "AUTHINFO simple")
    ∷ line (str "BODY [msg#|<msgid>]")
    ∷ line (str "CAPABILITIES")
    ∷ line (str "COMPRESS DEFLATE")
    ∷ line (str "DATE")
    ∷ line (str "GROUP newsgroup")
    ∷ line (str "HDR field [range|<msgid>]")
    ∷ line (str "HEAD [msg#|<msgid>]")
    ∷ line (str "HELP")
    ∷ line (str "LAST")
    ∷ line (
        str
          "LIST [active [wildmat]|active.times|counts|newsgroups|overview.fmt|headers|distributions|distrib.pats|subscriptions]")
    ∷ line (str "LISTGROUP [newsgroup [range]]")
    ∷ line (str "MODE reader")
    ∷ line (str "NEWGROUPS [YY]yymmdd hhmmss [GMT|UTC]")
    ∷ line (str "NEWNEWS wildmat [YY]yymmdd hhmmss [GMT|UTC]")
    ∷ line (str "NEXT")
    ∷ line (str "OVER [range]")
    ∷ line (str "POST")
    ∷ line (str "QUIT")
    ∷ line (str "STARTTLS")
    ∷ line (str "STAT [msg#|<msgid>]")
    ∷ line (str "XHDR field [range|<msgid>]")
    ∷ line (str "XOVER [range]")
    ∷ line (str "XPAT header range|<msgid> pat [pat...]")
    ∷ dot
    ∷ []

-- A command but `POST`, with its two arguments.
unfoldable pub run_command : Server → Conn → Disk → Command → Bytes → Bytes → Reaction
unfolding help_lines
run_command srv conn disk login a b = auth_info srv conn disk a b
run_command srv conn disk caps a b = capabilities srv conn disk
run_command srv conn disk secure a b = start_tls srv conn disk
run_command srv conn disk shrink a b = compress conn disk a
run_command srv conn disk feed a b =
    refuse conn disk 400 (str "not accepting articles - we are not a news feed")
run_command srv conn disk mode a b = mode_command conn disk a
run_command srv conn disk list a b = list_command srv conn disk a b
run_command srv conn disk list_group a b = listgroup srv conn disk a b
run_command srv conn disk match_header a b = xpat srv conn disk a b
run_command srv conn disk xreplic a b =
    refuse conn disk 437 (str "'xreplic' not implemented on this server")
run_command srv conn disk over a b = xover srv conn disk a
run_command srv conn disk hdr a b = xhdr srv conn disk a b
run_command srv conn disk group a b = group_command srv conn disk a
run_command srv conn disk help a b = reply conn disk help_lines
run_command srv conn disk new_groups a b = newgroups srv conn disk a b
run_command srv conn disk new_news a b = newnews srv conn disk a b
run_command srv conn disk next a b = next_command srv conn disk
run_command srv conn disk last a b = last_command srv conn disk
run_command srv conn disk post a b = reply conn disk []
run_command srv conn disk date a b = refuse conn disk 111 srv.date_text
run_command srv conn disk quit a b = record {
  conn = conn;
  disk = disk;
  out = status 205 (str "goodbye.") ∷ [];
  next = closed;
}
run_command srv conn disk unknown a b = refuse conn disk 500 (str "Command not understood")
run_command srv conn disk (part p) a b = article_command srv conn disk p a

abbrev pub dispatch :
    Server → Conn → Disk → Bytes → Command → Bytes → Bytes → Bytes → Reaction × Bytes
dispatch srv conn disk remote post a b input = post_command srv conn disk remote input
dispatch srv conn disk remote c a b input = (run_command srv conn disk c a b, input)

abbrev first_arg : List Bytes → Bytes
first_arg [] = []
first_arg (a ∷ _) = a

abbrev other_args : List Bytes → Bytes
other_args [] = []
other_args (_ ∷ as') = join as' (str " ")

-- One line of the client, without its end.
unfoldable pub handle_fields : Server → Conn → Disk → Bytes → List Bytes → Bytes → Reaction × Bytes
handle_fields srv conn disk remote [] input = (reply conn disk [], input)
handle_fields srv conn disk remote (cmd ∷ args) input =
    if conn.auth_simple
    then (auth_simple_line srv conn disk cmd (first_arg args), input)
    else dispatch srv conn disk remote (command_of cmd) (first_arg args) (other_args args) input

abbrev is_line_end : ℕ → Bool
is_line_end c = c == b'\r' || c == b'\n'

unfoldable pub handle_line : Server → Conn → Disk → Bytes → Bytes → Bytes → Reaction × Bytes
unfolding handle_fields
handle_line srv conn disk remote text input =
    handle_fields srv conn disk remote
      (fields (trim_right (λ c. c == b'\r') (trim_right is_line_end text))) input

-- How a session ends: by the client or the server, in a loop that does not end, or, in the model
-- alone, for want of fuel.
pub data End : Type 0 where
  done stuck out_of_fuel : End

pub record Served : Type 0 where
  pub out : List Out
  pub disk : Disk
  pub end : End

abbrev after_reaction : (Conn → Disk → Bytes → Served) → Reaction × Bytes → Served
after_reaction more (r, input) =
    let later = more r.conn r.disk input in
    elim r.next [
      | go_on ↦ record { out = r.out ++ later.out; disk = later.disk; end = later.end }
      | closed ↦ record { out = r.out; disk = r.disk; end = done }
      | hung ↦ record { out = r.out; disk = r.disk; end = stuck }
    ]

abbrev after_read : (Bytes → Bytes → Served) → Disk → Read → Served
after_read handle disk (eof _) = record { out = []; disk = disk; end = done }
after_read handle disk (got text input) = handle text input

-- Each round takes one byte of the input at least.
serve_onto : ℕ → Server → Bytes → Conn → Disk → Bytes → Served
unfolding handle_line read_line_raw
serve_onto zero srv remote conn disk input = record { out = []; disk = disk; end = out_of_fuel }
serve_onto (suc f) srv remote conn disk input =
    after_read
      (λ text rest.
        after_reaction (λ c d i. serve_onto f srv remote c d i)
          (handle_line srv conn disk remote text rest))
      disk (read_line_raw input)

-- `handleConn`, of all that a client sends.
unfoldable pub handle_conn : Server → Bytes → Disk → Bytes → Served
unfolding serve_onto
handle_conn srv remote disk input =
    let served = serve_onto (length input + 1) srv remote new_conn disk input in
    record served { out = status 200 (str "newsd news server ready - posting ok") ∷ served.out }
