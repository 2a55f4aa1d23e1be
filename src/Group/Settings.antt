-- ===== src/Group/Settings.antt =====
-- `LoadConfig`, `SaveConfig` and `LoadInfoFull` of internal/group/group.go.
pub mod Named
use gonewsd.Prelude.{
  ℕ, suc, ◌/◌, Bool, true, not, ◌&&◌, List, [], ◌∷◌, ◌++◌, none, some, if◌then◌else◌, is_empty,
  drop, Bytes, eq_bytes, str,
}
use gonewsd.Prelude.Int.{ℤ, pos, negsuc}
use gonewsd.Text.Decimal.{format_uint}
use gonewsd.Text.Scan.{scan_key_word, scan_key_int}
use gonewsd.Text.Scanner.{Scanned, scan_lines}
use gonewsd.Text.Strings.{trim_space, has_prefix, has_suffix}
use gonewsd.Spool.Names.{dirname, path_text}
use gonewsd.Spool.Disk.{
  Node, dir, file, absent, unreadable, directory, content, stat, open_file, write_file,
}
use gonewsd.Group.Types.{
  Group, no_group, Env, Outcome, ok, fail, M, pure, raise, run_next, ◌>>=◌, ◌>>◌, from_written,
  take_lock,
}
use gonewsd.Group.Info.{config_path, is_comment, lock_if, load_info, invalid_name}

-- A further address of `ccpost`.
add_cc : Bytes → Bytes → Bytes
add_cc cc s =
    if not (is_empty cc) && (not (eq_bytes cc (str "-")) && not (has_suffix cc (str ",")))
    then cc ++ (str "," ++ s)
    else cc ++ s

abbrev config_words : Group → Bytes → Group
config_words g line = elim (scan_key_word (str "ccpost") line) [
  | some s ↦ record g { cc_post = add_cc g.cc_post s }
  | none ↦ elim (scan_key_word (str "replyto") line) [
    | some s ↦ record g { reply_to = s }
    | none ↦ elim (scan_key_word (str "voidemail") line) [
      | some s ↦ record g { void_email = s }
      | none ↦ g
    ]
  ]
]

-- One line of the file `.config`, trimmed.
abbrev config_entry : Group → Bytes → Group
config_entry g line =
    if has_prefix line (str "description ")
    then record g { desc = trim_space (drop 12 line) }
    else elim (scan_key_word (str "creator") line) [
      | some s ↦ record g { creator = s }
      | none ↦ elim (scan_key_int (str "postlimit") line) [
        | some n ↦ record g { post_limit = n }
        | none ↦ config_words g line
      ]
    ]

unfoldable pub config_line : Group → Bytes → Group
unfolding add_cc trim_space has_prefix scan_key_word scan_key_int
config_line g text =
    let line = trim_space text in if is_comment line then g else config_entry g line

unfoldable pub config_lines : Group → List Bytes → Group
unfolding config_line
config_lines g [] = g
config_lines g (l ∷ ls) = config_lines (config_line g l) ls

abbrev default_cc : Group → Group
default_cc g = if is_empty g.cc_post then record g { cc_post = str "-" } else g

read_config : Group → Scanned → Outcome Group
unfolding config_lines
read_config g s =
    let g' = default_cc (config_lines (record g { cc_post = [] }) s.lines) in
    if s.complete then ok g' else fail []

-- The file is opened before the lock is taken, and its bytes are read behind that.
unfoldable pub load_config : Env → Bool → Group → M Group
unfolding read_config scan_lines open_file lock_if
load_config env do_lock g d =
    let p = config_path env.cfg g.name in
    let missing = path_text p ++ (str ": " ++ env.os.error_text p) in
    elim (open_file env.os d p) [
      | absent ↦ (fail missing, d)
      | unreadable ↦ (fail missing, d)
      | directory ↦ run_next (lock_if do_lock env g.name d) (λ _. raise [])
      | content bytes ↦
          run_next (lock_if do_lock env g.name d) (λ _ d'. (read_config g (scan_lines bytes), d'))
    ]

format_int : ℤ → Bytes
format_int (pos n) = format_uint n
format_int (negsuc n) = str "-" ++ format_uint (suc n)

unfoldable pub config_text : Group → Bytes
unfolding format_int format_uint
config_text g =
    str "description "
    ++ (g.desc
        ++ (str "\ncreator     "
            ++ (g.creator
                ++ (str "\npostlimit   "
                    ++ (format_int g.post_limit
                        ++ (str "\nccpost      "
                            ++ (g.cc_post
                                ++ (str "\nreplyto     "
                                    ++ (g.reply_to
                                        ++ (str "\nvoidemail   "
                                            ++ (g.void_email ++ str "\n")))))))))))

-- `SaveConfig`; its errors are not put into `Errmsg`.
unfoldable pub save_config : Env → Group → M (Unit {0})
unfolding take_lock config_text write_file
save_config env g = do
  take_lock env g.name
  λ d. from_written [] d (write_file env.os (config_path env.cfg g.name) (config_text g) d)
  λ d. if env.os.chown_fails (config_path env.cfg g.name) then (fail [], d) else (ok tt, d)

unfoldable pub node_time : Node → ℕ
node_time (dir t) = t
node_time (file _ t) = t

-- `LoadInfoFull` of a group that holds nothing yet.
unfoldable pub load_info_full : Env → Bytes → M Group
unfolding stat invalid_name load_info load_config node_time
load_info_full env name d = elim (stat d (dirname env.cfg name)) [
  | none ↦ (fail (invalid_name env name), d)
  | some node ↦
      run_next
        (load_info env true (record no_group { name = name; ctime = node_time node / 1000000000 })
          name d)
        (λ g. load_config env true g >>= λ g'. pure (record g' { valid = true }))
]
