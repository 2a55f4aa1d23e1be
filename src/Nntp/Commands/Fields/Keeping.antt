-- ===== src/Nntp/Commands/Fields/Keeping.antt =====
-- The header commands change nothing of the session.
use gonewsd.Prelude.{arith, Bytes}
use gonewsd.Nntp.Commands.Fields.{xover, xhdr, xpat}
use gonewsd.Nntp.Session.{Server, Conn, KeepsSession, KeepsPlace}
use gonewsd.Spool.Disk.{Disk}

module _ (srv : Server) (conn : Conn) (disk : Disk) where
  pub xover-KeepsSession : (a : Bytes) → KeepsSession conn (xover srv conn disk a)
  unfolding xover
  xover-KeepsSession a = ground arith

  pub xhdr-KeepsSession : (a b : Bytes) → KeepsSession conn (xhdr srv conn disk a b)
  unfolding xhdr
  xhdr-KeepsSession a b = ground arith

  pub xpat-KeepsSession : (a b : Bytes) → KeepsSession conn (xpat srv conn disk a b)
  unfolding xpat
  xpat-KeepsSession a b = ground arith

  pub xover-KeepsPlace : (a : Bytes) → KeepsPlace conn (xover srv conn disk a)
  unfolding xover
  xover-KeepsPlace a = ground arith

  pub xhdr-KeepsPlace : (a b : Bytes) → KeepsPlace conn (xhdr srv conn disk a b)
  unfolding xhdr
  xhdr-KeepsPlace a b = ground arith

  pub xpat-KeepsPlace : (a b : Bytes) → KeepsPlace conn (xpat srv conn disk a b)
  unfolding xpat
  xpat-KeepsPlace a b = ground arith
