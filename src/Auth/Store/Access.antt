-- ===== src/Auth/Store/Access.antt =====
-- Who may read and post, and what the loading of rows changes.
use mathlib.Core.Bool.{false≢true, true≢false}
use mathlib.Core.List.{Memᴰ}
use gonewsd.Prelude.{
  ℕ, none, sym, ◌∙◌, ◌==◌, ==_iff, Bool-cases, Bool, true, false, ◌&&◌, ◌||◌, List, [], ◌∷◌, Option,
  some, is_empty, Bytes, ◌≡◌, ◌↔◌, inl, inr, refl, arith, eq_bytes, eq_bytes_iff, bytes_eq,
  Option-cases,
}
use gonewsd.Prelude.Keyed.{lookup, insert, lookup-insert}
use gonewsd.Text.Strings.{contains_byte}
use gonewsd.Auth.Validate.{has_name}
use gonewsd.Auth.Store.{
  Session, Group, Store, set_mode, load_membership, keys, members_of, resolve_session_groups,
  has_group, perm_has, group_or_world, user_in_group, can_read, can_post, is_archived,
  filter_groups_for_list,
}

-- The session is that of a user who has the group.
pub record IsMember (session : Option Session) (name : Bytes) : Type 0 where
  pub who : Session
  pub session_is : session ≡ some who
  pub named : is_empty who.username ≡ false
  pub has : Memᴰ name who.groups

-- Which permission string a session's right rests on: a member's on that of the group, everybody
-- else's on that of the world.
pub data Allows (session : Option Session) (name : Bytes) (flag : ℕ) (g : Group) : Type 0 where
  as_member : IsMember session name → Memᴰ flag g.group_perm → Allows session name flag g
  as_world : ¬ IsMember session name → Memᴰ flag g.world_perm → Allows session name flag g

-- The session has the permission `flag` for the group: the group is in the store, is not archived,
-- and allows it.
pub record MayUse (st : Store) (session : Option Session) (name : Bytes) (flag : ℕ) : Type 0 where
  pub entry : Group
  pub stored : lookup name st.groups ≡ some entry
  pub live : entry.archived ≡ false
  pub allows : Allows session name flag entry

perm_has-Memᴰ : (perm : Bytes) (flag : ℕ) → perm_has perm flag ≡ true → Memᴰ flag perm
unfolding perm_has contains_byte
perm_has-Memᴰ [] flag h = absurd cc
perm_has-Memᴰ (c ∷ perm) flag h = elim (Bool-cases (c == flag)) [
  | inl e ↦ Memᴰ.head (sym ((==_iff c flag).0 e))
  | inr e ↦ Memᴰ.tail (perm_has-Memᴰ perm flag (ground (arith, h, e)))
]

Memᴰ-perm_has : (perm : Bytes) (flag : ℕ) → Memᴰ flag perm → perm_has perm flag ≡ true
unfolding perm_has contains_byte
Memᴰ-perm_has [] flag m = elim m [ ]
Memᴰ-perm_has (c ∷ perm) flag (Memᴰ.head e) = ground (arith, e)
Memᴰ-perm_has (c ∷ perm) flag (Memᴰ.tail m) = ground (arith, Memᴰ-perm_has perm flag m)

has_group-Memᴰ : (name : Bytes) (gs : List Bytes) → has_group name gs ≡ true → Memᴰ name gs
unfolding has_group
has_group-Memᴰ name [] h = absurd cc
has_group-Memᴰ name (g ∷ gs) h = elim (Bool-cases (eq_bytes g name)) [
  | inl e ↦ Memᴰ.head (sym ((eq_bytes_iff g name).0 e))
  | inr e ↦ Memᴰ.tail (has_group-Memᴰ name gs (ground (arith, h, e)))
]

Memᴰ-has_group : (name : Bytes) (gs : List Bytes) → Memᴰ name gs → has_group name gs ≡ true
unfolding has_group
Memᴰ-has_group name [] m = elim m [ ]
Memᴰ-has_group name (g ∷ gs) (Memᴰ.head e) = ground (arith, (eq_bytes_iff g name).1 (sym e))
Memᴰ-has_group name (g ∷ gs) (Memᴰ.tail m) = ground (arith, Memᴰ-has_group name gs m)

user_in_group-IsMember :
    (session : Option Session) (name : Bytes)
    → user_in_group session name ≡ true
    → IsMember session name
unfolding user_in_group
user_in_group-IsMember none name h = absurd cc
user_in_group-IsMember (some s) name h = record {
  who = s;
  session_is = refl;
  named = ground (arith, h);
  has = has_group-Memᴰ name s.groups (ground (arith, h));
}

IsMember-user_in_group :
    (session : Option Session) (name : Bytes)
    → IsMember session name
    → user_in_group session name ≡ true
unfolding user_in_group
IsMember-user_in_group session name m =
    rw (m.session_is, m.named) (Memᴰ-has_group name m.who.groups m.has)

-- The choice of the permission string.
group_or_world-Allows :
    (session : Option Session) (name : Bytes) (flag : ℕ) (g : Group)
    → perm_has (group_or_world session name g) flag ≡ true
    → Allows session name flag g
group_or_world-Allows session name flag g h = elim (Bool-cases (user_in_group session name)) [
  | inl e ↦
      as_member (user_in_group-IsMember session name e)
        (perm_has-Memᴰ g.group_perm flag (rw e at h))
  | inr e ↦
      as_world (λ m. true≢false (sym (IsMember-user_in_group session name m) ∙ e))
        (perm_has-Memᴰ g.world_perm flag (rw e at h))
]

Allows-group_or_world :
    (session : Option Session) (name : Bytes) (flag : ℕ) (g : Group)
    → Allows session name flag g
    → perm_has (group_or_world session name g) flag ≡ true
Allows-group_or_world session name flag g (as_member m p) =
    rw (IsMember-user_in_group session name m) (Memᴰ-perm_has g.group_perm flag p)
Allows-group_or_world session name flag g (as_world n p) =
    elim (Bool-cases (user_in_group session name)) [
      | inl e ↦ absurd (n (user_in_group-IsMember session name e))
      | inr e ↦ rw e (Memᴰ-perm_has g.world_perm flag p)
    ]

module _ (st : Store) (session : Option Session) (name : Bytes) where
  can_read-MayUse : can_read st session name true ≡ true → MayUse st session name b'r'
  unfolding can_read
  can_read-MayUse h = elim (Option-cases (lookup name st.groups)) [
    | inl e ↦ absurd (false≢true (rw e at h))
    | inr (g, e) ↦ record {
      entry = g;
      stored = e;
      live = ground arith;
      allows = group_or_world-Allows session name b'r' g (ground arith);
    }
  ]

  MayUse-can_read : MayUse st session name b'r' → can_read st session name true ≡ true
  unfolding can_read
  MayUse-can_read m =
      ground (arith, m.stored, m.live, Allows-group_or_world session name b'r' m.entry m.allows)

  can_post-MayUse : can_post st session name true ≡ true → MayUse st session name b'w'
  unfolding can_post
  can_post-MayUse h = elim (Option-cases (lookup name st.groups)) [
    | inl e ↦ absurd (false≢true (rw e at h))
    | inr (g, e) ↦ record {
      entry = g;
      stored = e;
      live = ground arith;
      allows = group_or_world-Allows session name b'w' g (ground arith);
    }
  ]

  MayUse-can_post : MayUse st session name b'w' → can_post st session name true ≡ true
  unfolding can_post
  MayUse-can_post m =
      ground (arith, m.stored, m.live, Allows-group_or_world session name b'w' m.entry m.allows)

  -- A session may read a group of the spool exactly if the store has the group, it is not archived,
  -- and `r` is in its permissions: those for the group if the session is that of a user who has the
  -- group, those for the world if not.
  pub can_read_iff : (can_read st session name true ≡ true) ↔ MayUse st session name b'r'
  can_read_iff = (can_read-MayUse, MayUse-can_read)

  -- A session may post to a group of the spool exactly if the store has the group, it is not
  -- archived, and `w` is in its permissions: those for the group if the session is that of a user who
  -- has the group, those for the world if not.
  pub can_post_iff : (can_post st session name true ≡ true) ↔ MayUse st session name b'w'
  can_post_iff = (can_post-MayUse, MayUse-can_post)

  -- The global mode changes no decision.
  pub can_read-set_mode :
      (mode : Bytes) (exists : Bool)
      → (can_read (set_mode st mode) session name exists ≡ can_read st session name exists)
        × (can_post (set_mode st mode) session name exists ≡ can_post st session name exists)
  unfolding can_read can_post set_mode
  can_read-set_mode mode exists = ground arith

is_archived-can_read :
    (st : Store) (session : Option Session) (name : Bytes)
    → is_archived st name ≡ true
    → can_read st session name true ≡ false
unfolding is_archived can_read
is_archived-can_read st session name h = ground arith

-- The listing for `LIST` keeps a name of the spool exactly if the session may read its group.
has_name-filter_groups_for_list :
    (st : Store) (session : Option Session) (names : List Bytes) (name : Bytes)
    → has_name name (filter_groups_for_list st session names)
      ≡ (has_name name names && can_read st session name true)
unfolding filter_groups_for_list has_name
has_name-filter_groups_for_list st session [] name = refl
has_name-filter_groups_for_list st session (n ∷ names) name = ground (
  arith,
  has_name-filter_groups_for_list st session names name,
  eq_bytes_iff n name,
  is_archived-can_read st session n,
)

has_group-insert :
    (k name : Bytes) (m : List (Bytes × Bool))
    → has_group name (keys (insert k true m)) ≡ (eq_bytes k name || has_group name (keys m))
unfolding has_group insert
has_group-insert k name [] = refl
has_group-insert k name ((j, b) ∷ m) =
    ground
      (arith, eq_bytes_iff j k, eq_bytes_iff j name, eq_bytes_iff k name, has_group-insert k name m)

-- Loading a membership adds that group to the groups of that user, and changes nothing else.
pub resolve_session_groups-load_membership :
    (st : Store) (username groupname other name : Bytes)
    → is_empty username ≡ false
    → is_empty groupname ≡ false
    → has_group name (resolve_session_groups (load_membership st username groupname) other) ≡ (
        (eq_bytes username other && eq_bytes groupname name)
        || has_group name (resolve_session_groups st other))
unfolding resolve_session_groups load_membership
resolve_session_groups-load_membership st username groupname other name h k = ground (
  arith,
  lookup-insert username other (insert groupname true (members_of (lookup username st.membership)))
      st.membership,
  eq_bytes_iff username other,
  has_group-insert groupname name (members_of (lookup username st.membership)),
)
