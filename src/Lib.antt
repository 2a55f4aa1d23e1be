-- ===== src/Lib.antt =====
-- gonewsd is an NNTP server: articles are files in a spool, one directory for each group, and users,
-- groups and permissions are held in memory from a database. A connection sends command lines; each
-- is taken apart and dispatched, and works on the current group and article of its session, on the
-- spool through the group and article packages, and on the store of permissions.
--
-- What models what:
--   Prelude        names of the libraries that are passed on, Go's maps as association lists, tests
--                  on bytes, integers.
--   Text           what the source uses of Go's strings, strconv, bufio and fmt, on bytes.
--   Config         internal/config/config.go: the record of settings, its directives
--                  (Config.Directives), the values that they read (Config.Values), and Load.
--   Auth           internal/auth: validate.go (Auth.Validate), store.go (Auth.Store), and db.go
--                  (Auth.Database), over an interface Sql of the statements that it runs.
--   Spool          Spool.Names: Dirname of internal/group/lock.go and GetArticlePath of
--                  internal/article/article.go. Spool.Disk: the file system that they name, a map
--                  from paths to files and directories.
--   Article        internal/article/article.go: SendArticle (Article.Send); Load, Overview and
--                  GetRawHeader (Article.Fields).
--   Group          internal/group/group.go: LoadInfo, BuildInfo, SaveInfo (Group.Info); LoadConfig,
--                  SaveConfig, LoadInfoFull (Group.Settings); headers (Group.Headers); the search
--                  for a message id and DeleteArticle (Group.Articles); Post (Group.Posting);
--                  AllGroups (Group.Listing); WildmatMatch (Group.Wildmat). The locks of lock.go
--                  stand in Group.Types.
--   Nntp           internal/nntp/server.go: bytes to lines and post bodies (Nntp.Wire), ranges
--                  (Nntp.Range), the variables and answers of a session (Nntp.Session), one module
--                  for each family of commands and the loop of handleConn (Nntp.Commands).
--                  Nntp.Accepting: Accept and the count of connections.
--   Logging        internal/logging/log.go: the logger as a state machine.
--   Gateway        cmd/gonewsd/main.go: mailGateway, ccPostToMail, buildPreserveHeaders.
--   Cli            cmd/gonewsd/authcli.go: the prompts, adduser, updateuser and deleteuser
--                  (Cli.Commands), updategroup (Cli.Grouping).
--   Tests          concrete runs, and the theorems at concrete inputs.
--
-- Code that changes files is a function from a disk to a result and a disk. A method that fails
-- returns the message that the source puts into Errmsg. A command returns the variables of the
-- session, the disk, the lines that it sends, and whether the session goes on. The spam filter, the
-- clock, refusals of the file system, bcrypt's comparison, the address parser, the calendar and the
-- TLS handshake are parameters, in the records Os, Env and Server.
--
-- Bounds and fuel. Numbers of articles are of 64 bits, and wrap where the source's can. Lines are cut
-- at 4096 bytes, post bodies end at 10485760. The loop of a session has the length of its input and
-- one as fuel, since each round takes a byte; the matcher of patterns the length of its pattern. The
-- search for a message id and the loop of Post go through numbers of 64 bits and have 2^64 rounds:
-- behind them each number has been met, and the loop of the source goes on for ever (running,
-- endless). A loop over a range whose last number is 2^64-1 has no end either; a command that stands
-- in a loop with no end leaves its session hung, and of what such a loop sends only the first line
-- is told. Where fuel can run out the result says so.
--
-- The goroutines that accept and serve connections are a relation of steps, in any order. A command
-- on the user database takes what is typed as a list of entries, and waits where there is none left.
--
-- Not modelled: the text of log lines; SQLite itself, the opening of its file, and bcrypt; addgroup,
-- deletegroup, the lists of users and groups, and the parsing of options; process start, signals and
-- the reload of the store; the test clients; sockets; the waiting for a lock (one operation runs at a
-- time), the locks on Windows, deadlines, the command behind a posting, and letters and spaces
-- beyond ASCII.
pub mod Prelude
pub mod Text
pub mod Config
pub mod Auth
pub mod Spool
pub mod Article
pub mod Group
pub mod Logging
pub mod Gateway
pub mod Cli
pub mod Nntp
pub mod Tests
