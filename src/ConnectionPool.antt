-- ===== src/ConnectionPool.antt =====
-- sylar/http/http_connection.h and sylar/http/http_connection.cpp: HttpConnectionPool, its idle
-- connections and their count. Whether a connection is connected, the time, and whether a new
-- connection is made are parameters of each call. The connections that callers hold are kept beside
-- the pool. The count is the 32-bit pattern of an int.
pub mod Reachable
mod Runs
use server_framework_learnin.Prelude.{
  ℕ, zero, suc, ◌+◌, ◌-◌, ◌%◌, ◌^◌, Bool, true, false, not, ◌||◌, List, [], ◌∷◌, ◌++◌, length,
  Option, none, some, leb, ltb, if◌then◌else◌,
}

-- HttpConnection, with its createTime_ and request_.
pub record Connection : Type 0 where
  pub id : ℕ
  pub create_time : ℕ
  pub request : ℕ

-- The constructor.
unfoldable pub new_connection : ℕ → Connection
new_connection id = record { id = id; create_time = 0; request = 0 }

-- maxAliveTime_ and maxRequest_.
pub record Limits : Type 0 where
  pub max_alive_time : ℕ
  pub max_request : ℕ

-- conns_ and total_, and the connections that are lent.
pub record Pool : Type 0 where
  pub conns : List Connection
  pub total : ℕ
  pub lent : List Connection

-- The time up to which the source compares.
unfoldable pub end_of_life : Limits → Connection → ℕ
end_of_life l c = (c.create_time + l.max_alive_time) % 2 ^ 64

-- The loop of getConnection: the connection that it takes, those that are left, and how many
-- are invalid.
unfoldable pub take_valid :
    Limits → (ℕ → Bool) → ℕ → List Connection → Option Connection × List Connection × ℕ
take_valid l connected now [] = (none, [], 0)
take_valid l connected now (c ∷ cs) =
    let rest = take_valid l connected now cs in
    let invalid : Option Connection × List Connection × ℕ = (rest.0, rest.1, suc rest.2) in
    if not (connected c.id)
    then invalid
    else if ltb now (end_of_life l c)
    then invalid
    else (some c, cs, 0)

unfoldable pub subtract : ℕ → ℕ → ℕ
subtract total n = (total + (2 ^ 32 - n % 2 ^ 32)) % 2 ^ 32

-- The end of getConnection. `made` is a new connection, if there is one.
unfoldable pub lend : Option Connection → Option ℕ → Pool → Pool
lend (some c) made p = record p { lent = c ∷ p.lent }
lend none (some id) p = record p {
  total = (p.total + 1) % 2 ^ 32;
  lent = new_connection id ∷ p.lent;
}
lend none none p = p

-- HttpConnectionPool::getConnection.
unfoldable pub get_connection : Limits → (ℕ → Bool) → ℕ → Option ℕ → Pool → Pool
get_connection l connected now made p =
    let found = take_valid l connected now p.conns in
    lend found.0 made (record p { conns = found.1; total = subtract p.total found.2 })

-- Whether ReleasePtr deletes a connection, which has one request more by then.
unfoldable pub is_over : Limits → (ℕ → Bool) → ℕ → Connection → Bool
is_over l connected now c =
    not (connected c.id) || (leb now (end_of_life l c) || leb l.max_request c.request)

-- HttpConnectionPool::ReleasePtr, of a connection that is lent no more.
unfoldable pub release : Limits → (ℕ → Bool) → ℕ → Connection → Pool → Pool
release l connected now c p =
    let d = record c { request = (c.request + 1) % 2 ^ 64 } in
    if is_over l connected now d
    then record p { total = subtract p.total 1 }
    else record p { conns = p.conns ++ d ∷ [] }
