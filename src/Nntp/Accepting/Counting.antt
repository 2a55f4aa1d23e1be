-- ===== src/Nntp/Accepting/Counting.antt =====
-- The count of the connections, in any order of the steps.
use mathlib.Core.Path.{subst}
use gonewsd.Prelude.{
  ℕ, ◌+◌, ◌≡◌, ◌⊎◌, inl, inr, ◌≤◌, ◌<◌, refl, Bool, true, false, List, [], ◌∷◌, arith, length,
  if◌then◌else◌,
}
use gonewsd.Config.{Config}
use gonewsd.Nntp.Accepting.{
  Phase, idle, admitted, counted, Pool, new_pool, has_conn, drop_conn, is_full, count_in, register,
  leave_map, leave_count, Arrival, connection, broken, Accepted, served, accept, Step, refuse,
  admit, count, enter, go, uncount, Reach, here, more,
}
use gonewsd.Nntp.Session.{Out}

-- A connection that is counted and not yet in the map.
abbrev pub pending : Phase → ℕ
pending (counted _) = 1
pending _ = 0

-- A connection that is let in and not yet counted.
abbrev pub expected : Phase → ℕ
expected (admitted _) = 1
expected _ = 0

-- The count is that of the connections in the map, of those that have just left it, and of the one
-- that is about to enter it; with the one that is let in it is within the limit, if there is one.
pub record IsCounted (cfg : Config) (p : Pool) : Type 0 where
  pub exact : p.clients ≡ length p.conns + length p.closing + pending p.phase
  pub within : 0 < cfg.max_clients → p.clients + expected p.phase ≤ cfg.max_clients

drop_conn-length :
    (c : ℕ) (ds : List ℕ) → has_conn c ds ≡ true → length (drop_conn c ds) + 1 ≡ length ds
unfolding has_conn drop_conn
drop_conn-length c [] h = ground arith
drop_conn-length c (d ∷ ds) h = ground (arith, drop_conn-length c ds)

Step-IsCounted :
    (cfg : Config) (p : Pool) {q : Pool} → Step cfg p q → IsCounted cfg p → IsCounted cfg q
unfolding is_full count_in register leave_map leave_count
Step-IsCounted cfg p (refuse i f) h = h
Step-IsCounted cfg p (admit c i f) h = ground arith
Step-IsCounted cfg p (count c i) h = ground arith
Step-IsCounted cfg p (enter c i) h = ground arith
Step-IsCounted cfg p (go c m) h = ground (arith, drop_conn-length c p.conns)
Step-IsCounted cfg p (uncount c m) h = ground (arith, drop_conn-length c p.closing)

-- Whatever order the accepting goroutine and those of the connections run in: the count is exact,
-- and never above `MaxClients`, if that is not 0.
pub Reach-IsCounted : (cfg : Config) {q : Pool} → Reach cfg new_pool q → IsCounted cfg q
Reach-IsCounted cfg here = ground arith
Reach-IsCounted cfg (more {q = q} r s) = Step-IsCounted cfg q s (Reach-IsCounted cfg r)

chosen :
    (b : Bool) (next : Accepted) (d c : ℕ) (x q : Pool) (sent sent' : List (ℕ × Out))
    → (if b then next else served d x sent) ≡ served c q sent'
    → ((b ≡ true) × (next ≡ served c q sent')) ⊎ ((b ≡ false) × (d ≡ c) × (x ≡ q))
chosen true next d c x q sent sent' e = inl (refl, e)
chosen false next d c x q sent sent' e = inr (refl, cc, cc)

-- A call of `Accept` that serves a connection takes the steps of the relation, and the connection is
-- in the map behind it.
pub accept-Reach :
    (cfg : Config) (p : Pool) (sent : List (ℕ × Out)) (as' : List Arrival) {c : ℕ} {q : Pool}
    {sent' : List (ℕ × Out)}
    → p.phase ≡ idle
    → accept cfg p sent as' ≡ served c q sent'
    → Reach cfg p q × (has_conn c q.conns ≡ true)
unfolding accept has_conn
accept-Reach cfg p sent [] i e = absurd cc
accept-Reach cfg p sent (broken ∷ as') i e = absurd cc
accept-Reach cfg p sent (connection d ∷ as') {c} i e =
    elim (chosen (is_full cfg p) _ d _ _ _ _ _ e) [
      | inl (f, next) ↦ accept-Reach cfg p _ as' i next
      | inr (f, d_is, q_is) ↦
          subst (λ r. Reach cfg p r × (has_conn c r.conns ≡ true)) q_is
            (
              more (more (more here (admit d i f)) (count d refl)) (enter d refl),
              unfold register count_in in ground arith,
            )
    ]
