-- ===== src/Nntp/Commands/Listing/Keeping.antt =====
-- The lists change nothing of the session.
use gonewsd.Prelude.{refl, arith, Bytes, Option, none, some}
use gonewsd.Nntp.Commands.Listing.{list_command, newgroups, newnews, news_block}
use gonewsd.Nntp.Session.{Server, DateTime, Conn, KeepsSession, KeepsPlace}
use gonewsd.Spool.Disk.{Disk}

module _ (srv : Server) (conn : Conn) (disk : Disk) where
  pub list_command-KeepsSession : (a b : Bytes) → KeepsSession conn (list_command srv conn disk a b)
  unfolding list_command
  list_command-KeepsSession a b = ground arith

  pub newgroups-KeepsSession : (a b : Bytes) → KeepsSession conn (newgroups srv conn disk a b)
  unfolding newgroups
  newgroups-KeepsSession a b = ground arith

  news_block-KeepsSession :
      (a : Bytes) (t : Option DateTime) → KeepsSession conn (news_block srv conn disk a t)
  news_block-KeepsSession a none = refl
  news_block-KeepsSession a (some t) = refl

  pub newnews-KeepsSession : (a b : Bytes) → KeepsSession conn (newnews srv conn disk a b)
  unfolding newnews
  newnews-KeepsSession a b = ground arith

  pub list_command-KeepsPlace : (a b : Bytes) → KeepsPlace conn (list_command srv conn disk a b)
  unfolding list_command
  list_command-KeepsPlace a b = ground arith

  pub newgroups-KeepsPlace : (a b : Bytes) → KeepsPlace conn (newgroups srv conn disk a b)
  unfolding newgroups
  newgroups-KeepsPlace a b = ground arith

  news_block-KeepsPlace :
      (a : Bytes) (t : Option DateTime) → KeepsPlace conn (news_block srv conn disk a t)
  news_block-KeepsPlace a none = (refl, refl)
  news_block-KeepsPlace a (some t) = (refl, refl)

  pub newnews-KeepsPlace : (a b : Bytes) → KeepsPlace conn (newnews srv conn disk a b)
  unfolding newnews
  newnews-KeepsPlace a b = ground arith
