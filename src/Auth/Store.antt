-- ===== src/Auth/Store.antt =====
-- internal/auth/store.go: the users, groups and memberships that the server holds in memory.
-- A Go map is an association list; the order in which a map is walked is not fixed by Go.
pub mod Access
use gonewsd.Prelude.{
  ℕ, Bool, true, false, not, ◌&&◌, ◌||◌, List, [], ◌∷◌, Option, none, some, if◌then◌else◌, is_empty,
  Bytes, eq_bytes, bytes_eq, str,
}
use gonewsd.Prelude.Int.{ℤ}
use gonewsd.Prelude.Keyed.{lookup, insert}
use gonewsd.Text.Strings.{contains_byte}

-- `Session`; the source's nil session is `none`
pub record Session : Type 0 where
  pub username : Bytes
  pub real_name : Bytes
  pub groups : List Bytes

pub record User : Type 0 where
  pub user_id : ℕ
  pub username : Bytes
  pub password_hash : Bytes
  pub real_name : Bytes

pub record Group : Type 0 where
  pub group_id : ℕ
  pub groupname : Bytes
  pub group_perm : Bytes
  pub world_perm : Bytes
  pub archived : Bool
  pub description : Bytes
  pub creator : Bytes
  pub post_limit : ℤ
  pub cc_post : Bytes
  pub reply_to : Bytes
  pub void_email : Bytes

pub record Store : Type 0 where
  pub users : List (Bytes × User)
  pub groups : List (Bytes × Group)
  pub membership : List (Bytes × List (Bytes × Bool))
  pub mode : Bytes

abbrev pub mode_public : Bytes
mode_public = str "public"

abbrev pub mode_private : Bytes
mode_private = str "private"

abbrev pub mode_read_public_write_private : Bytes
mode_read_public_write_private = str "read_public_write_private"

pub new_store : Bytes → Store
new_store mode = record {
  users = [];
  groups = [];
  membership = [];
  mode = if is_empty mode then mode_public else mode;
}

unfoldable pub set_mode : Store → Bytes → Store
set_mode st mode = if not (is_empty mode) then record st { mode = mode } else st

unfoldable pub load_user : Store → User → Store
unfolding insert
load_user st u = record st { users = insert u.username u st.users }

unfoldable pub load_group : Store → Group → Store
unfolding insert
load_group st g = record st { groups = insert g.groupname g st.groups }

-- The groups of one user; a nil map has none.
abbrev members_of : Option (List (Bytes × Bool)) → List (Bytes × Bool)
members_of none = []
members_of (some m) = m

unfoldable pub load_membership : Store → Bytes → Bytes → Store
unfolding insert lookup
load_membership st username groupname =
    if is_empty username || is_empty groupname then st else record st {
      membership =
          insert username (insert groupname true (members_of (lookup username st.membership)))
            st.membership;
    }

unfoldable pub clear : Store → Store
clear st = record st { users = []; groups = []; membership = [] }

-- `compare_password` is `ComparePassword`: bcrypt, of a hash and a password.
unfoldable pub validate_user : (Bytes → Bytes → Bool) → Store → Bytes → Bytes → Bool
unfolding lookup
validate_user compare_password st username password = elim (lookup username st.users) [
  | none ↦ false
  | some u ↦ compare_password u.password_hash password
]

abbrev keys : List (Bytes × Bool) → List Bytes
keys [] = []
keys ((k, _) ∷ m) = k ∷ keys m

unfoldable pub resolve_session_groups : Store → Bytes → List Bytes
unfolding lookup
resolve_session_groups st username = keys (members_of (lookup username st.membership))

unfoldable pub get_user_real_name : Store → Bytes → Bytes
unfolding lookup
get_user_real_name st username = elim (lookup username st.users) [
  | none ↦ []
  | some u ↦ u.real_name
]

unfoldable pub has_group : Bytes → List Bytes → Bool
has_group name [] = false
has_group name (g ∷ gs) = eq_bytes g name || has_group name gs

unfoldable pub user_in_group : Option Session → Bytes → Bool
unfolding has_group eq_bytes
user_in_group none name = false
user_in_group (some s) name = if is_empty s.username then false else has_group name s.groups

-- `permHas`; the flag is one byte, `r` or `w`
unfoldable pub perm_has : Bytes → ℕ → Bool
unfolding contains_byte
perm_has perm flag = contains_byte perm flag

-- `session != nil && session.Username != "" && UserInGroup(session, groupName)`
abbrev member_session : Option Session → Bytes → Bool
member_session none name = false
member_session (some s) name = not (is_empty s.username) && user_in_group (some s) name

-- The `switch mode` at the end of `CanRead` and of `CanPost`.
read_by_mode : Bytes → Option Session → Bytes → Bool
unfolding eq_bytes
read_by_mode mode session name =
    if eq_bytes mode mode_public
    then true
    else if eq_bytes mode mode_private
    then member_session session name
    else true

post_by_mode : Bytes → Option Session → Bytes → Bool
unfolding eq_bytes
post_by_mode mode session name =
    if eq_bytes mode mode_public
    then true
    else if eq_bytes mode mode_private
    then member_session session name
    else if eq_bytes mode mode_read_public_write_private
    then member_session session name
    else true

abbrev group_or_world : Option Session → Bytes → Group → Bytes
group_or_world session name g = if user_in_group session name then g.group_perm else g.world_perm

-- The pointer and the flag of `g, hasGroup := st.groups[groupName]`, which `hasGroup && …` tests.
abbrev is_some {ℓ} : {A : Type ℓ} → Option A → Bool
is_some none = false
is_some (some _) = true

abbrev archived_entry : Option Group → Bool
archived_entry none = false
archived_entry (some g) = g.archived

abbrev perm_of : Option Session → Bytes → Option Group → Bytes
perm_of session name none = []
perm_of session name (some g) = group_or_world session name g

unfoldable pub can_read : Store → Option Session → Bytes → Bool → Bool
unfolding lookup perm_has read_by_mode
can_read st session name exists_in_spool =
    let g = lookup name st.groups in
    let found = is_some g in
    if not found
    then false
    else if found && archived_entry g
    then false
    else if not exists_in_spool
    then false
    else if found
    then perm_has (perm_of session name g) b'r'
    else read_by_mode st.mode session name

unfoldable pub can_post : Store → Option Session → Bytes → Bool → Bool
unfolding lookup perm_has post_by_mode
can_post st session name exists_in_spool =
    let g = lookup name st.groups in
    let found = is_some g in
    if not found
    then false
    else if found && archived_entry g
    then false
    else if not exists_in_spool
    then false
    else if found
    then perm_has (perm_of session name g) b'w'
    else post_by_mode st.mode session name

unfoldable pub is_archived : Store → Bytes → Bool
unfolding lookup
is_archived st name = let g = lookup name st.groups in is_some g && archived_entry g

unfoldable pub filter_groups_for_list : Store → Option Session → List Bytes → List Bytes
filter_groups_for_list st session [] = []
filter_groups_for_list st session (name ∷ names) =
    let rest = filter_groups_for_list st session names in
    if is_archived st name
    then rest
    else if can_read st session name true
    then name ∷ rest
    else rest
