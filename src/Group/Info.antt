-- ===== src/Group/Info.antt =====
-- `LoadInfo`, `BuildInfo` and `SaveInfo` of internal/group/group.go.
pub mod Counting
pub mod RoundTrip
pub mod Named
use gonewsd.Prelude.{
  ℕ, ◌+◌, Bool, true, false, not, ◌&&◌, ◌||◌, List, [], ◌∷◌, ◌++◌, Option, none, some, ◌==◌, ltb,
  leb, if◌then◌else◌, is_empty, length, Bytes, FilePath, str,
}
use gonewsd.Config.{Config}
use gonewsd.Text.Decimal.{is_digit, format_uint, parse_uint}
use gonewsd.Text.Scan.{scan_key_uint}
use gonewsd.Text.Scanner.{Scanned, scan_lines}
use gonewsd.Text.Strings.{trim_space}
use gonewsd.Spool.Names.{dirname, join_path, path_text}
use gonewsd.Spool.Disk.{
  Disk, Node, dir, file, Os, Opened, absent, unreadable, directory, content, stat, is_dir, exists,
  open_file, write_file, entries,
}
use gonewsd.Group.Types.{
  Group, Env, Outcome, ok, fail, M, pure, raise, run_next, ◌>>=◌, ◌>>◌, from_written, take_lock,
}

abbrev pub info_path : Config → Bytes → FilePath
info_path cfg name = join_path (dirname cfg name) (str ".info")

abbrev pub config_path : Config → Bytes → FilePath
config_path cfg name = join_path (dirname cfg name) (str ".config")

unfoldable pub info_text : Group → Bytes
info_text g =
    str "start       "
    ++ (format_uint g.start
        ++ (b'\n'
            ∷ (str "end         "
                ++ (format_uint g.end
                    ++ (b'\n' ∷ (str "total       " ++ (format_uint g.total ++ b'\n' ∷ [])))))))

chown_info : Env → Group → M (Unit {0})
chown_info env g d =
    let p = info_path env.cfg g.name in
    if env.os.chown_fails p then (fail (env.os.error_text p), d) else (ok tt, d)

-- The lock is taken by the callers that ask for it.
unfoldable pub save_info : Env → Group → M (Unit {0})
unfolding chown_info info_text write_file
save_info env g = do
  λ d.
      let p = info_path env.cfg g.name in
      from_written (env.os.error_text p) d (write_file env.os p (info_text g) d)
  chown_info env g

-- One article number of the directory.
abbrev pub count_number : Group → ℕ → Group
count_number g artnum = record g {
  start = if g.total == 0 || ltb artnum g.start then artnum else g.start;
  end = if g.total == 0 || ltb g.end artnum then artnum else g.end;
  total = g.total + 1;
}

-- `name == "" || (name[0] < '0' || name[0] > '9')`
abbrev no_number : Bytes → Bool
no_number [] = true
no_number (c ∷ _) = not (is_digit c)

abbrev is_plain_file : Option Node → Bool
is_plain_file (some (file _ _)) = true
is_plain_file _ = false

-- The number of an entry that counts: a file whose name is a number.
entry_number : Disk → FilePath → Bytes → Option ℕ
unfolding is_digit stat parse_uint
entry_number d parent name =
    if no_number name
    then none
    else if not (is_plain_file (stat d (join_path parent name)))
    then none
    else parse_uint name

abbrev add_number : Option ℕ → List ℕ → List ℕ
add_number none ns = ns
add_number (some n) ns = n ∷ ns

files_of : Disk → FilePath → List Bytes → List ℕ
unfolding entry_number
files_of d parent [] = []
files_of d parent (name ∷ names) = add_number (entry_number d parent name) (files_of d parent names)

append_numbers : List ℕ → List ℕ → List ℕ
append_numbers [] ns = ns
append_numbers (m ∷ ms) ns = m ∷ append_numbers ms ns

-- With `MsgModDirs` the files lie in directories whose names begin with a digit.
mod_dir_files : Disk → FilePath → List Bytes → List ℕ
unfolding files_of append_numbers entries
mod_dir_files d parent [] = []
mod_dir_files d parent (name ∷ names) =
    let rest = mod_dir_files d parent names in
    let path = join_path parent name in
    if no_number name
    then rest
    else if not (is_dir (stat d path))
    then rest
    else append_numbers (files_of d path (entries d path)) rest

-- The numbers of the articles that the scan of a group's directory meets.
unfoldable pub article_numbers : Config → Disk → Bytes → List ℕ
unfolding files_of mod_dir_files
article_numbers cfg d name =
    let here = dirname cfg name in
    if cfg.msg_mod_dirs
    then mod_dir_files d here (entries d here)
    else files_of d here (entries d here)

unfoldable pub count_numbers : Group → List ℕ → Group
count_numbers g [] = g
count_numbers g (n ∷ ns) = count_numbers (count_number g n) ns

counted : Env → Group → Disk → Group
unfolding count_numbers article_numbers
counted env g d =
    count_numbers (record g { start = 0; end = 0; total = 0 }) (article_numbers env.cfg d g.name)

unfoldable pub lock_if : Bool → Env → Bytes → M (Unit {0})
unfolding take_lock
lock_if true env name = take_lock env name
lock_if false env name = pure tt

-- `BuildInfo` behind its lock.
unfoldable pub scan_group : Env → Group → M Group
unfolding counted save_info
scan_group env g d =
    let here = dirname env.cfg g.name in
    let g' = counted env g d in
    if not (is_dir (stat d here)) || env.os.refused here
    then (fail (env.os.error_text here), d)
    else run_next (save_info env g' d) (λ _. pure g')

-- The group comes back as the scan leaves it.
unfoldable pub build_info : Env → Bool → Group → M Group
unfolding lock_if scan_group
build_info env do_lock g d = run_next (lock_if do_lock env g.name d) (λ _. scan_group env g)

-- One line of the file `.info`, trimmed.
abbrev info_entry : Group → Bytes → Group
info_entry g line = elim (scan_key_uint (str "start") line) [
  | some n ↦ record g { start = n }
  | none ↦ elim (scan_key_uint (str "end") line) [
    | some n ↦ record g { end = n }
    | none ↦ elim (scan_key_uint (str "total") line) [ some n ↦ record g { total = n } | none ↦ g ]
  ]
]

-- `line == "" || line[0] == '#'`
abbrev pub is_comment : Bytes → Bool
is_comment [] = true
is_comment (c ∷ _) = c == b'#'

unfoldable pub info_line : Group → Bytes → Group
info_line g text = let line = trim_space text in if is_comment line then g else info_entry g line

unfoldable pub info_lines : Group → List Bytes → Group
info_lines g [] = g
info_lines g (l ∷ ls) = info_lines (info_line g l) ls

-- What the scanner of `LoadInfo` makes of the bytes of the file.
unfoldable pub read_info : Group → Scanned → Outcome Group
read_info g s = if s.complete then ok (record (info_lines g s.lines) { valid = true }) else fail []

load_opened : Env → Bool → Group → Opened → M Group
unfolding build_info read_info lock_if scan_lines
load_opened env do_lock g absent d =
    if not (exists (stat d (config_path env.cfg g.name)))
    then (fail (str "invalid group"), d)
    else build_info env do_lock g d
load_opened env do_lock g unreadable d =
    let p = info_path env.cfg g.name in (fail (path_text p ++ (str ": " ++ env.os.error_text p)), d)
load_opened env do_lock g directory d = run_next (lock_if do_lock env g.name d) (λ _. raise [])
load_opened env do_lock g (content bytes) d =
    run_next (lock_if do_lock env g.name d) (λ _ d'. (read_info g (scan_lines bytes), d'))

-- `invalid group name %q: %v`, for a name that `%q` puts in quotes as it is
unfoldable pub invalid_name : Env → Bytes → Bytes
invalid_name env name =
    str "invalid group name \""
    ++ (name ++ (str "\": " ++ env.os.error_text (dirname env.cfg name)))

unfoldable pub load_info : Env → Bool → Group → Bytes → M Group
unfolding load_opened invalid_name open_file
load_info env do_lock g name d =
    let g' = record g { valid = false; name = name } in
    if leb 1024 (length name)
    then (fail (str "group name too long"), d)
    else if not (exists (stat d (dirname env.cfg name)))
    then (fail (invalid_name env name), d)
    else load_opened env do_lock g' (open_file env.os d (info_path env.cfg name)) d
