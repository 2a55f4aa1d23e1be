-- ===== src/Spool/Names.antt =====
-- `Dirname` of internal/group/lock.go and `GetArticlePath` of internal/article/article.go. A path is
-- cleaned as `filepath.Join` cleans it, and is the list of its components from the root.
pub mod Distinct
use gonewsd.Prelude.{
  ℕ, ◌*◌, ◌/◌, Bool, true, false, List, [], ◌∷◌, ◌++◌, if◌then◌else◌, ◌||◌, is_empty, Bytes,
  FilePath, eq_bytes, str,
}
use gonewsd.Config.{Config}
use gonewsd.Text.Decimal.{format_uint}
use gonewsd.Text.Split.{split}
use gonewsd.Text.Strings.{replace_byte}

unfoldable pub drop_last : FilePath → FilePath
drop_last [] = []
drop_last (p ∷ []) = []
drop_last (p ∷ q ∷ ps) = p ∷ drop_last (q ∷ ps)

-- `filepath.Clean` of a rooted path, one component at a time.
pub clean_onto : FilePath → List Bytes → FilePath
unfolding drop_last
clean_onto out [] = out
clean_onto out (p ∷ ps) =
    clean_onto
      (if is_empty p || eq_bytes p (str ".")
        then out
        else if eq_bytes p (str "..")
        then drop_last out
        else out ++ p ∷ [])
      ps

-- `filepath.Join(dir, name)`
unfoldable pub join_path : FilePath → Bytes → FilePath
unfolding clean_onto split eq_bytes
join_path dir name = clean_onto dir (split name b'/')

-- `SpoolDir`, which `Load` has made absolute.
unfoldable pub spool_path : Config → FilePath
unfolding join_path
spool_path cfg = join_path [] cfg.spool_dir

unfoldable pub dirname : Config → Bytes → FilePath
dirname cfg name = join_path (spool_path cfg) (replace_byte name b'.' b'/')

unfoldable pub get_article_path : Config → Bytes → ℕ → FilePath
get_article_path cfg group artnum =
    let base = join_path (spool_path cfg) (replace_byte group b'.' b'/') in
    if cfg.msg_mod_dirs
    then join_path (join_path base (format_uint (artnum / 1000 * 1000))) (format_uint artnum)
    else join_path base (format_uint artnum)

-- A path as the messages show it.
unfoldable pub path_text : FilePath → Bytes
path_text [] = []
path_text (p ∷ ps) = str "/" ++ (p ++ path_text ps)
