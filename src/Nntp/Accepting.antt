-- ===== src/Nntp/Accepting.antt =====
-- internal/nntp/server.go: `Accept` and the counting of connections. One goroutine accepts; each
-- connection has a goroutine of its own, which leaves the map and the count in two steps.
pub mod Counting
use gonewsd.Prelude.{
  ℕ, ◌+◌, ◌-◌, ◌≡◌, Bool, true, false, ◌&&◌, ◌||◌, List, [], ◌∷◌, ltb, leb, ◌==◌, if◌then◌else◌,
  Bytes, str,
}
use gonewsd.Config.{Config}
use gonewsd.Nntp.Session.{Out, status}

-- What the accepting goroutine is about to do: to ask for a connection, to count one that it has
-- let in, to put one into the map.
pub data Phase : Type 0 where
  idle : Phase
  admitted counted : ℕ → Phase

-- `clients` and `conns`, with the connections that have left the map and are still counted.
pub record Pool : Type 0 where
  pub clients : ℕ
  pub conns : List ℕ
  pub closing : List ℕ
  pub phase : Phase

abbrev pub new_pool : Pool
new_pool = record { clients = 0; conns = []; closing = []; phase = idle }

unfoldable pub has_conn : ℕ → List ℕ → Bool
has_conn c [] = false
has_conn c (d ∷ ds) = d == c || has_conn c ds

unfoldable pub drop_conn : ℕ → List ℕ → List ℕ
drop_conn c [] = []
drop_conn c (d ∷ ds) = let rest = drop_conn c ds in if d == c then ds else d ∷ rest

-- `s.cfg.MaxClients > 0` and `n >= int64(s.cfg.MaxClients)`
unfoldable pub is_full : Config → Pool → Bool
is_full cfg p = ltb 0 cfg.max_clients && leb cfg.max_clients p.clients

-- `atomic.AddInt64(&s.clients, 1)`
unfoldable pub count_in : Pool → ℕ → Pool
count_in p c = record p { clients = p.clients + 1; phase = counted c }

-- `s.conns[conn] = struct{}{}`, and the connection's goroutine starts.
unfoldable pub register : Pool → ℕ → Pool
register p c = record p { conns = c ∷ p.conns; phase = idle }

-- The deferred call of `handleConn`: the connection leaves the map, then the count.
unfoldable pub leave_map : Pool → ℕ → Pool
unfolding drop_conn
leave_map p c = record p { conns = drop_conn c p.conns; closing = c ∷ p.closing }

unfoldable pub leave_count : Pool → ℕ → Pool
unfolding drop_conn
leave_count p c = record p { clients = p.clients - 1; closing = drop_conn c p.closing }

abbrev pub too_many : Out
too_many = status 400 (str "Server has too many connections open -- try again later")

-- What the listener gives: a connection, or an error.
pub data Arrival : Type 0 where
  connection : ℕ → Arrival
  broken : Arrival

-- The end of a call of `Accept`: a connection that is served, an error, or a wait for the next
-- arrival, each with the lines that refused connections were sent.
pub data Accepted : Type 0 where
  served : ℕ → Pool → List (ℕ × Out) → Accepted
  failed : List (ℕ × Out) → Accepted
  waiting : List (ℕ × Out) → Accepted

-- `Accept` calls itself where it has refused a connection.
unfoldable pub accept : Config → Pool → List (ℕ × Out) → List Arrival → Accepted
unfolding is_full count_in register
accept cfg p sent [] = waiting sent
accept cfg p sent (broken ∷ as') = failed sent
accept cfg p sent (connection c ∷ as') =
    let next = accept cfg p ((c, too_many) ∷ sent) as' in
    if is_full cfg p then next else served c (register (count_in p c) c) sent

-- The steps of the goroutines, in any order.
pub data Step (cfg : Config) (p : Pool) : Pool → Type 0 where
  refuse : p.phase ≡ idle → is_full cfg p ≡ true → Step cfg p p
  admit :
      (c : ℕ)
      → p.phase ≡ idle
      → is_full cfg p ≡ false
      → Step cfg p (record p { phase = admitted c })
  count : (c : ℕ) → p.phase ≡ admitted c → Step cfg p (count_in p c)
  enter : (c : ℕ) → p.phase ≡ counted c → Step cfg p (register p c)
  go : (c : ℕ) → has_conn c p.conns ≡ true → Step cfg p (leave_map p c)
  uncount : (c : ℕ) → has_conn c p.closing ≡ true → Step cfg p (leave_count p c)

pub data Reach (cfg : Config) (p : Pool) : Pool → Type 0 where
  here : Reach cfg p p
  more : {q r : Pool} → Reach cfg p q → Step cfg q r → Reach cfg p r
