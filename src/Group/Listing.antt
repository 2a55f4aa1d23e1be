-- ===== src/Group/Listing.antt =====
-- `AllGroups` of internal/group/group.go.
use gonewsd.Prelude.{
  ℕ, zero, suc, ◌+◌, Bool, true, false, not, ◌&&◌, List, [], ◌∷◌, ◌++◌, ◌==◌, ltb, if◌then◌else◌,
  length, Bytes, FilePath, str,
}
use gonewsd.Config.{Config}
use gonewsd.Spool.Names.{spool_path}
use gonewsd.Spool.Disk.{Disk, stat, is_dir, exists, entries}

-- `e.Name()[0] == '.'`
abbrev is_hidden : Bytes → Bool
is_hidden [] = false
is_hidden (c ∷ _) = c == b'.'

-- The name of a group below the directory `sub`, whose components are those of its path.
group_name : FilePath → Bytes → Bytes
group_name [] name = name
group_name (p ∷ ps) name = p ++ (str "." ++ group_name ps name)

-- The entries of one directory; `below` lists the groups of a directory inside.
list_entries : Config → Disk → (FilePath → List Bytes) → FilePath → List Bytes → List Bytes
unfolding stat group_name
list_entries cfg d below sub [] = []
list_entries cfg d below sub (name ∷ names) =
    let rest = list_entries cfg d below sub names in
    let path = spool_path cfg ++ (sub ++ name ∷ []) in
    let is_group = exists (stat d (path ++ str ".config" ∷ [])) in
    let here = if is_group then group_name sub name ∷ [] else [] in
    let deeper = if cfg.no_recurse_msg_dir && is_group then [] else below (sub ++ name ∷ []) in
    if is_hidden name
    then rest
    else if not (is_dir (stat d path))
    then rest
    else here ++ (deeper ++ rest)

-- The fuel bounds how deep directories lie.
all_groups_recurse : ℕ → Config → Disk → FilePath → List Bytes
unfolding list_entries entries
all_groups_recurse zero cfg d sub = []
all_groups_recurse (suc f) cfg d sub =
    list_entries cfg d (all_groups_recurse f cfg d) sub (entries d (spool_path cfg ++ sub))

-- Go's `>` on strings.
greater : Bytes → Bytes → Bool
greater [] t = false
greater (c ∷ s) [] = true
greater (c ∷ s) (e ∷ t) =
    let rest = greater s t in if ltb e c then true else if c == e then rest else false

insert_sorted : Bytes → List Bytes → List Bytes
insert_sorted n [] = n ∷ []
insert_sorted n (m ∷ ms) = if greater m n then m ∷ insert_sorted n ms else n ∷ m ∷ ms

sort_names : List Bytes → List Bytes
sort_names [] = []
sort_names (n ∷ ns) = insert_sorted n (sort_names ns)

abbrev max : ℕ → ℕ → ℕ
max a b = if ltb a b then b else a

-- The components of the longest path.
unfoldable pub depth : Disk → ℕ
depth [] = 0
depth ((p, _) ∷ d) = max (length p) (depth d)

unfoldable pub all_groups : Config → Disk → List Bytes
unfolding all_groups_recurse sort_names insert_sorted greater depth
all_groups cfg d = sort_names (all_groups_recurse (depth d + 1) cfg d [])
