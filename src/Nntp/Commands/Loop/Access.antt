-- ===== src/Nntp/Commands/Loop/Access.antt =====
-- The commands on the current group, in a session that may not read it.
use gonewsd.Prelude.{◌≡◌, refl, Bool, true, false, arith, str, Bytes}
use gonewsd.Nntp.Commands.Fields.{xover, xhdr, xpat}
use gonewsd.Nntp.Commands.Loop.{Command, match_header, over, hdr, next, last, part, run_command}
use gonewsd.Nntp.Commands.Reading.{next_command, last_command, article_command}
use gonewsd.Nntp.Session.{Server, Conn, refuse, may_read}
use gonewsd.Spool.Disk.{Disk}

-- The commands that read articles of the current group.
abbrev pub is_reading : Command → Bool
is_reading over = true
is_reading hdr = true
is_reading match_header = true
is_reading next = true
is_reading last = true
is_reading (part _) = true
is_reading _ = false

module _ (srv : Server) (conn : Conn) (disk : Disk) where
  -- If the session may not read the current group, each command that reads its articles answers
  -- with 480 alone, whatever its arguments, and changes neither the session's variables nor the
  -- disk.
  pub run_command-refused :
      (c : Command) (a b : Bytes)
      → conn.cur_group.valid ≡ true
      → may_read srv conn.session conn.cur_group.name true ≡ false
      → is_reading c ≡ true
      → run_command srv conn disk c a b ≡ refuse conn disk 480 (str "Authentication required")
  unfolding run_command xover xhdr xpat next_command last_command article_command
  run_command-refused over a b v m h = rw (v, m) refl
  run_command-refused hdr a b v m h = rw (v, m) refl
  run_command-refused match_header a b v m h = rw (v, m) refl
  run_command-refused next a b v m h = rw (v, m) refl
  run_command-refused last a b v m h = rw (v, m) refl
  run_command-refused (part p) a b v m h = rw (v, m) refl
  run_command-refused _ a b v m h = absurd (ground arith)
