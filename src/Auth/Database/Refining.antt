-- ===== src/Auth/Database/Refining.antt =====
-- The store that is loaded is a view of the rows of the database.
use mathlib.Core.Path.{subst}
use gonewsd.Prelude.{
  str, ◌≡◌, refl, ap, ◌∙◌, Bool, false, ◌&&◌, ◌||◌, List, [], ◌∷◌, Option, none, some, arith,
  if◌then◌else◌, is_empty, Bytes, eq_bytes, bytes_eq,
}
use gonewsd.Prelude.Keyed.{lookup, lookup-insert}
use gonewsd.Auth.Database.{Sql, AclRow, Rows, query_failed, rows, rows_then, Result, done, error}
use gonewsd.Auth.Database.Loading.{
  acl_group, load_users, load_groups, load_memberships, load_rows, stage, user_stage, group_stage,
  membership_stage, load_store_from_db,
}
use gonewsd.Auth.Store.{
  User, Group, Store, clear, load_user, load_group, load_membership, has_group,
  resolve_session_groups,
}
use gonewsd.Auth.Store.Access.{resolve_session_groups-load_membership}

-- The last row that has the name.
abbrev pub last_user : Bytes → List User → Option User → Option User
last_user name [] before = before
last_user name (u ∷ us) before =
    last_user name us (if eq_bytes u.username name then some u else before)

abbrev pub last_group : Bytes → List AclRow → Option Group → Option Group
last_group name [] before = before
last_group name (r ∷ rs) before =
    last_group name rs (if eq_bytes r.row_name name then some (acl_group r) else before)

-- Whether a row says that the user is in the group.
abbrev pub has_row : Bytes → Bytes → List (Bytes × Bytes) → Bool
has_row u g [] = false
has_row u g ((v, h) ∷ ms) = (eq_bytes v u && eq_bytes h g) || has_row u g ms

load_users-lookup :
    (us : List User) (st : Store) (name : Bytes)
    → lookup name (load_users st us).users ≡ last_user name us (lookup name st.users)
unfolding load_users load_user
load_users-lookup [] st name = refl
load_users-lookup (u ∷ us) st name =
    load_users-lookup us (load_user st u) name
    ∙ ap (last_user name us) (lookup-insert u.username name u st.users)

load_groups-lookup :
    (rs : List AclRow) (st : Store) (name : Bytes)
    → lookup name (load_groups st rs).groups ≡ last_group name rs (lookup name st.groups)
unfolding load_groups load_group
load_groups-lookup [] st name = refl
load_groups-lookup (r ∷ rs) st name =
    load_groups-lookup rs (load_group st (acl_group r)) name
    ∙ ap (last_group name rs) (lookup-insert r.row_name name (acl_group r) st.groups)

-- A membership with an empty name is not loaded.
load_membership-has_group :
    (st : Store) (v h u g : Bytes)
    → is_empty u ≡ false
    → is_empty g ≡ false
    → has_group g (resolve_session_groups (load_membership st v h) u)
      ≡ ((eq_bytes v u && eq_bytes h g) || has_group g (resolve_session_groups st u))
unfolding load_membership eq_bytes
load_membership-has_group st [] h [] g ne nf = absurd cc
load_membership-has_group st [] h (c ∷ u) g ne nf = refl
load_membership-has_group st (d ∷ v) [] u [] ne nf = absurd cc
load_membership-has_group st (d ∷ v) [] u (c ∷ g) ne nf = ground arith
load_membership-has_group st (d ∷ v) (e ∷ h) u g ne nf =
    resolve_session_groups-load_membership st (d ∷ v) (e ∷ h) u g refl refl

load_memberships-has_group :
    (ms : List (Bytes × Bytes)) (st : Store) (u g : Bytes)
    → is_empty u ≡ false
    → is_empty g ≡ false
    → has_group g (resolve_session_groups (load_memberships st ms) u)
      ≡ (has_row u g ms || has_group g (resolve_session_groups st u))
unfolding load_memberships
load_memberships-has_group [] st u g ne nf = refl
load_memberships-has_group ((v, h) ∷ ms) st u g ne nf =
    load_memberships-has_group ms (load_membership st v h) u g ne nf
    ∙ rw (load_membership-has_group st v h u g ne nf) (ground arith)

-- The loading of one table leaves the others alone.
load_users-keeps :
    (us : List User) (st : Store)
    → ((load_users st us).groups ≡ st.groups) × ((load_users st us).membership ≡ st.membership)
unfolding load_users load_user
load_users-keeps [] st = (refl, refl)
load_users-keeps (u ∷ us) st = load_users-keeps us (load_user st u)

load_groups-keeps :
    (rs : List AclRow) (st : Store)
    → ((load_groups st rs).users ≡ st.users) × ((load_groups st rs).membership ≡ st.membership)
unfolding load_groups load_group
load_groups-keeps [] st = (refl, refl)
load_groups-keeps (r ∷ rs) st = load_groups-keeps rs (load_group st (acl_group r))

load_membership-keeps :
    (st : Store) (u g : Bytes)
    → ((load_membership st u g).users ≡ st.users) × ((load_membership st u g).groups ≡ st.groups)
unfolding load_membership
load_membership-keeps st [] g = (refl, refl)
load_membership-keeps st (c ∷ u) [] = (refl, refl)
load_membership-keeps st (c ∷ u) (d ∷ g) = (refl, refl)

load_memberships-keeps :
    (ms : List (Bytes × Bytes)) (st : Store)
    → ((load_memberships st ms).users ≡ st.users) × ((load_memberships st ms).groups ≡ st.groups)
unfolding load_memberships
load_memberships-keeps [] st = (refl, refl)
load_memberships-keeps ((u, g) ∷ ms) st =
    let (a, b) = load_memberships-keeps ms (load_membership st u g) in
    let (a', b') = load_membership-keeps st u g in (a ∙ a', b ∙ b')

-- The store says of every name what the last row with that name says, and of every user and group
-- whether there is a row of memberships for them.
pub record IsView (us : List User) (rs : List AclRow) (ms : List (Bytes × Bytes)) (st : Store)
    : Type 0 where
  pub users_are : (name : Bytes) → lookup name st.users ≡ last_user name us none
  pub groups_are : (name : Bytes) → lookup name st.groups ≡ last_group name rs none
  pub members_are :
      (u g : Bytes)
      → is_empty u ≡ false
      → is_empty g ≡ false
      → has_group g (resolve_session_groups st u) ≡ has_row u g ms

has_group-no_rows :
    (st : Store) (u g : Bytes)
    → st.membership ≡ []
    → has_group g (resolve_session_groups st u) ≡ false
unfolding resolve_session_groups lookup has_group
has_group-no_rows st u g e = rw e refl

or_none : (a b : Bool) → b ≡ false → (a || b) ≡ a
or_none a b e = ground arith

view :
    (us : List User) (rs : List AclRow) (ms : List (Bytes × Bytes)) (st : Store)
    → IsView us rs ms (load_memberships (load_groups (load_users (clear st) us) rs) ms)
unfolding clear lookup
view us rs ms st =
    let a = load_users (clear st) us in
    let b = load_groups a rs in
    let (ub, gb) = load_memberships-keeps ms b in
    let (ua, ma) = load_groups-keeps rs a in
    let (gn, mn) = load_users-keeps us (clear st) in
    record {
      users_are = λ name. ap (lookup name) (ub ∙ ua) ∙ load_users-lookup us (clear st) name;
      groups_are = λ name.
          ap (lookup name) gb
          ∙ load_groups-lookup rs a name
          ∙ ap (λ g. last_group name rs (lookup name g)) gn;
      members_are = λ u g ne nf.
          load_memberships-has_group ms b u g ne nf
          ∙ or_none (has_row u g ms) _ (has_group-no_rows b u g (ma ∙ mn));
    }

stage-done :
    (r : Result (Unit {0}) × Store) (next : Store → Result (Unit {0}) × Store) {st : Store}
    → stage r next ≡ (done tt, st)
    → (st' : Store) × (r ≡ (done tt, st')) × (next st' ≡ (done tt, st))
stage-done (error e, t) next h = absurd (cc (ap (λ p. p.0) h))
stage-done (done tt, t) next h = (t, refl, h)

load_rows-done :
    {A : Type 0} (what : Bytes) (load : Store → List A → Store) (q : Rows A) (st : Store)
    {st' : Store}
    → load_rows what load q st ≡ (done tt, st')
    → (xs : List A) × (q ≡ rows xs) × (load st xs ≡ st')
load_rows-done what load (query_failed e) st h = absurd (cc (ap (λ p. p.0) h))
load_rows-done what load (rows xs) st h = (xs, refl, cc)
load_rows-done what load (rows_then xs e) st h = absurd (cc (ap (λ p. p.0) h))

-- What `LoadStoreFromDB` has loaded without an error is a view of the rows of the three tables: each
-- query has given all of its rows, and what the store held before is gone.
pub load_store_from_db-IsView :
    {S : Type 0} (db : Sql S) (s : S) (st : Store) {st' : Store}
    → load_store_from_db db s st ≡ (done tt, st')
    → (us : List User) × (rs : List AclRow) × (ms : List (Bytes × Bytes)) × (db.select_users s
        ≡ rows us)
      × (db.select_acls s ≡ rows rs)
      × (db.select_memberships s ≡ rows ms)
      × IsView us rs ms st'
unfolding load_store_from_db
load_store_from_db-IsView db s st h =
    let q = stage (user_stage db s st) (group_stage db s) in
    let (b, hb, hm) = stage-done q (membership_stage db s) h in
    let (a, ha, hg) = stage-done (user_stage db s st) (group_stage db s) hb in
    let (us, qu, lu) =
      load_rows-done (str "query users") load_users (db.select_users s) (clear st) ha in
    let (rs, qr, lr) = load_rows-done (str "query groups") load_groups (db.select_acls s) a hg in
    let (ms, qm, lm) =
      load_rows-done (str "query group_membership") load_memberships (db.select_memberships s) b
        hm in
    (
      us,
      rs,
      ms,
      qu,
      qr,
      qm,
      subst (IsView us rs ms)
          (ap (λ x. load_memberships (load_groups x rs) ms) lu
            ∙ (ap (λ x. load_memberships x ms) lr ∙ lm))
          (view us rs ms st),
    )
