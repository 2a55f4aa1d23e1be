-- ===== src/Spool/Disk.antt =====
-- The file system as the source uses it: a map from paths to nodes. An access can be refused, for
-- any reason but absence, and a change of owner can fail; both are parameters.
pub mod Keeping
use gonewsd.Prelude.{
  ℕ, Bool, true, false, not, ◌&&◌, ◌||◌, List, [], ◌∷◌, Option, none, some, if◌then◌else◌, Bytes,
  FilePath, eq_path, path_eq,
}
use gonewsd.Prelude.Keyed.{lookup, insert, remove}
use gonewsd.Spool.Names.{drop_last}

-- A file has its bytes; both have the time of the last change, in nanoseconds.
pub data Node : Type 0 where
  dir : ℕ → Node
  file : Bytes → ℕ → Node

abbrev pub Disk : Type 0
Disk = List (FilePath × Node)

pub record Os : Type 0 where
  pub refused : FilePath → Bool
  pub chown_fails : FilePath → Bool
  pub error_text : FilePath → Bytes
  pub now : ℕ

-- `os.Stat`
unfoldable pub stat : Disk → FilePath → Option Node
unfolding lookup
stat d p = lookup p d

abbrev pub is_dir : Option Node → Bool
is_dir (some (dir _)) = true
is_dir _ = false

abbrev pub exists : Option Node → Bool
exists none = false
exists (some _) = true

-- `os.Open`, and what a scanner reads behind it.
pub data Opened : Type 0 where
  absent unreadable directory : Opened
  content : Bytes → Opened

opened_node : Option Node → Opened
opened_node none = absent
opened_node (some (dir _)) = directory
opened_node (some (file bytes _)) = content bytes

unfoldable pub open_file : Os → Disk → FilePath → Opened
unfolding stat opened_node
open_file os d p = if exists (stat d p) && os.refused p then unreadable else opened_node (stat d p)

pub data Written : Type 0 where
  written : Disk → Written
  already_there failed : Written

-- A change of a directory's entries sets its time.
touch : ℕ → FilePath → Disk → Disk
unfolding stat insert
touch now p d = if is_dir (stat d p) then insert p (dir now) d else d

-- `os.WriteFile`: the file is made, or its old bytes are dropped.
unfoldable pub write_file : Os → FilePath → Bytes → Disk → Written
unfolding stat insert touch drop_last
write_file os p bytes d =
    if os.refused p || not (is_dir (stat d (drop_last p))) then failed else elim (stat d p) [
      | none ↦ written (insert p (file bytes os.now) (touch os.now (drop_last p) d))
      | some (dir _) ↦ failed
      | some (file _ _) ↦ written (insert p (file bytes os.now) d)
    ]

-- `os.OpenFile` with `O_CREATE|O_EXCL`
unfoldable pub create_file : Os → FilePath → Bytes → Disk → Written
unfolding stat insert touch drop_last
create_file os p bytes d =
    if not (is_dir (stat d (drop_last p)))
    then failed
    else if exists (stat d p)
    then already_there
    else if os.refused p
    then failed
    else written (insert p (file bytes os.now) (touch os.now (drop_last p) d))

-- `os.MkdirAll` of a directory whose parent is there
unfoldable pub make_dir : Os → FilePath → Disk → Written
unfolding stat insert touch drop_last
make_dir os p d =
    if is_dir (stat d p)
    then written d
    else if exists (stat d p)
    then failed
    else if os.refused p || not (is_dir (stat d (drop_last p)))
    then failed
    else written (insert p (dir os.now) (touch os.now (drop_last p) d))

-- `os.Remove` of a file
unfoldable pub remove_file : Os → FilePath → Disk → Written
unfolding stat remove touch drop_last
remove_file os p d = elim (stat d p) [
  | some (file _ _) ↦
      if os.refused p then failed else written (touch os.now (drop_last p) (remove p d))
  | _ ↦ failed
]

-- `p` is an entry of `parent`: its name, if so.
unfoldable pub child_name : FilePath → FilePath → Option Bytes
child_name [] [] = none
child_name [] (n ∷ []) = some n
child_name [] (n ∷ _ ∷ _) = none
child_name (x ∷ xs) [] = none
child_name (x ∷ xs) (y ∷ ys) =
    let rest = child_name xs ys in if eq_path (x ∷ []) (y ∷ []) then rest else none

-- The names of the entries of a directory, in the order of the map.
unfoldable pub entries : Disk → FilePath → List Bytes
unfolding child_name eq_path
entries [] parent = []
entries ((p, _) ∷ d) parent = elim (child_name parent p) [
  | none ↦ entries d parent
  | some n ↦ n ∷ entries d parent
]
