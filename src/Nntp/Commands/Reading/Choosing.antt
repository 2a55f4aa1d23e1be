-- ===== src/Nntp/Commands/Reading/Choosing.antt =====
-- What `GROUP`, `NEXT` and `LAST` make current.
use mathlib.Core.Path.{subst}
use gonewsd.Prelude.{
  ℕ, ◌+◌, ◌-◌, ◌%◌, ◌≡◌, ◌≤◌, refl, sym, true, false, ◌||◌, ◌==◌, arith, is_empty, ltb, leb, Bytes,
}
use gonewsd.Auth.Validate.{valid_group_name}
use gonewsd.Group.Settings.{load_info_full}
use gonewsd.Group.Types.{Group, Outcome, ok, fail}
use gonewsd.Nntp.Commands.Reading.{
  group_command, next_command, last_command, select, move_to, load_article,
}
use gonewsd.Nntp.Session.{Server, Conn, has_code, Reaction, may_read}
use gonewsd.Spool.Disk.{Disk}
use gonewsd.Text.Decimal.{two64}

-- The group that is current behind a successful `GROUP`, with its first article.
pub record Chosen (srv : Server) (conn : Conn) (name : Bytes) (load : Outcome Group × Disk)
    (r : Reaction) : Type 0 where
  pub may : may_read srv conn.session name true ≡ true
  pub load_is : load ≡ (ok r.conn.cur_group, r.disk)
  pub first :
      r.conn.cur_article ≡ load_article srv r.disk r.conn.cur_group.name r.conn.cur_group.start

module _ (srv : Server) (conn : Conn) (name : Bytes) where
  select-Chosen :
      (load : Outcome Group × Disk)
      → has_code 211 (select srv conn name load.0 load.1).out ≡ true
      → Chosen srv conn name load (select srv conn name load.0 load.1)
  unfolding select
  select-Chosen (fail msg, disk) h = absurd (ground arith)
  select-Chosen (ok g, disk) h =
      let may : may_read srv conn.session name true ≡ true = ground arith in
      rw may (record { may = may; load_is = refl; first = refl })

  -- `GROUP` answers 211 only for a valid name of a group that the session may read; the group that
  -- was loaded is then the current one, and its first article the current article.
  pub group_command-Chosen :
      (disk : Disk)
      → has_code 211 (group_command srv conn disk name).out ≡ true
      → (valid_group_name name ≡ true)
        × Chosen srv conn name (load_info_full srv.env name disk) (group_command srv conn disk name)
  unfolding group_command
  group_command-Chosen disk h =
      let filled : is_empty name ≡ false = ground arith in
      let good : valid_group_name name ≡ true = ground arith in
      let load = load_info_full srv.env name disk in
      let passed : group_command srv conn disk name ≡ select srv conn name load.0 load.1 =
        rw (filled, good) refl in
      (
        good,
        subst (λ (r : Reaction). Chosen srv conn name load r) (sym passed)
            (select-Chosen load (subst (λ (r : Reaction). has_code 211 r.out ≡ true) passed h)),
      )

-- Article `n` of the current group is there and is the current one; nothing else is changed.
pub record Moved (srv : Server) (conn : Conn) (disk : Disk) (n : ℕ) (r : Reaction) : Type 0 where
  pub valid : (load_article srv disk conn.cur_group.name n).valid ≡ true
  pub conn_is : r.conn ≡ record conn { cur_article = load_article srv disk conn.cur_group.name n }
  pub disk_is : r.disk ≡ disk

module _ (srv : Server) (conn : Conn) (disk : Disk) where
  move_to-Moved :
      (code n : ℕ)
      → (code == 223) ≡ false
      → has_code 223 (move_to srv conn disk code n).out ≡ true
      → Moved srv conn disk n (move_to srv conn disk code n)
  unfolding move_to
  move_to-Moved code n c h =
      let valid : (load_article srv disk conn.cur_group.name n).valid ≡ true = ground arith in
      record { valid = valid; conn_is = simp valid; disk_is = simp valid }

  -- `NEXT` answers 223 only if the next number lies between the ends of the current group and that
  -- article is there; it is then the current one, and nothing else is changed.
  pub next_command-Moved :
      has_code 223 (next_command srv conn disk).out ≡ true
      → (conn.cur_group.start ≤ (conn.cur_article.number + 1) % two64)
        × ((conn.cur_article.number + 1) % two64 ≤ conn.cur_group.end)
        × (may_read srv conn.session conn.cur_group.name true ≡ true)
        × Moved srv conn disk ((conn.cur_article.number + 1) % two64) (next_command srv conn disk)
  unfolding next_command
  next_command-Moved h =
      let n = (conn.cur_article.number + 1) % two64 in
      let group : conn.cur_group.valid ≡ true = ground arith in
      let may : may_read srv conn.session conn.cur_group.name true ≡ true = ground arith in
      let valid : conn.cur_article.valid ≡ true = ground arith in
      let inside : (ltb n conn.cur_group.start || ltb conn.cur_group.end n) ≡ false =
        ground arith in
      let passed : next_command srv conn disk ≡ move_to srv conn disk 421 n =
        rw (group, may, valid, inside) refl in
      (
        ground arith,
        ground arith,
        may,
        subst (λ (r : Reaction). Moved srv conn disk n r) (sym passed)
            (move_to-Moved 421 n refl
              (subst (λ (r : Reaction). has_code 223 r.out ≡ true) passed h)),
      )

  -- `LAST` answers 223 only if the number before is not below the start of the current group and
  -- that article is there; it is then the current one, and nothing else is changed.
  pub last_command-Moved :
      has_code 223 (last_command srv conn disk).out ≡ true
      → (conn.cur_group.start ≤ conn.cur_article.number - 1)
        × (conn.cur_article.number - 1 + 1 ≡ conn.cur_article.number)
        × (may_read srv conn.session conn.cur_group.name true ≡ true)
        × Moved srv conn disk (conn.cur_article.number - 1) (last_command srv conn disk)
  unfolding last_command
  last_command-Moved h =
      let n = conn.cur_article.number - 1 in
      let group : conn.cur_group.valid ≡ true = ground arith in
      let may : may_read srv conn.session conn.cur_group.name true ≡ true = ground arith in
      let valid : conn.cur_article.valid ≡ true = ground arith in
      let inside : leb conn.cur_article.number conn.cur_group.start ≡ false = ground arith in
      let passed : last_command srv conn disk ≡ move_to srv conn disk 422 n =
        rw (group, may, valid, inside) refl in
      (
        ground arith,
        ground arith,
        may,
        subst (λ (r : Reaction). Moved srv conn disk n r) (sym passed)
            (move_to-Moved 422 n refl
              (subst (λ (r : Reaction). has_code 223 r.out ≡ true) passed h)),
      )
