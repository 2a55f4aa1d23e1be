-- ===== src/Auth/Database/Atomic.antt =====
-- The changes of users are made together or not at all.
use gonewsd.Prelude.{ℕ, ◌≡◌, Bytes, ap}
use gonewsd.Auth.Database.{Sql, Answer, row, no_rows, broken, Result, done, error, rolled_back}
use gonewsd.Auth.Database.Users.{add_user, update_user, update_selected}

rolled_back-error :
    {S A : Type 0} (s : S) (r : Result A × S) {e : Bytes} {s' : S}
    → rolled_back s r ≡ (error e, s')
    → s' ≡ s
rolled_back-error s (done a, t) h = absurd (cc (ap (λ p. p.0) h))
rolled_back-error s (error e, t) h = cc

-- Whatever the statements do: where adding a user fails, the database is what it was.
pub add_user-error :
    {S : Type 0} (db : Sql S) (username hash realname groups : Bytes) (s : S) {e : Bytes} {s' : S}
    → add_user db username hash realname groups s ≡ (error e, s')
    → s' ≡ s
unfolding add_user
add_user-error db username hash realname groups s h = rolled_back-error s _ h

update_selected-error :
    {S : Type 0} (db : Sql S) (username hash realname groups : Bytes)
    (a : Answer (ℕ × (Bytes × Bytes))) (s : S) {e : Bytes} {s' : S}
    → update_selected db username hash realname groups a s ≡ (error e, s')
    → s' ≡ s
unfolding update_selected
update_selected-error db username hash realname groups no_rows s h = cc
update_selected-error db username hash realname groups (broken f) s h = cc
update_selected-error db username hash realname groups (row (uid, (old_hash, old_name))) s h =
    rolled_back-error s _ h

-- Whatever the statements do: where updating a user fails, in the middle of the change of its groups
-- for example, the database is what it was.
pub update_user-error :
    {S : Type 0} (db : Sql S) (username hash realname groups : Bytes) (s : S) {e : Bytes} {s' : S}
    → update_user db username hash realname groups s ≡ (error e, s')
    → s' ≡ s
unfolding update_user
update_user-error db username hash realname groups s h =
    update_selected-error db username hash realname groups (db.select_user username s) s h
