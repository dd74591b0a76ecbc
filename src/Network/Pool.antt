-- ===== src/Network/Pool.antt =====
-- internal/network/pool.go: one connection for each address.
pub mod Connections
use d_hotsuff.Prelude.{
  Bytes, bytes_instance, ℕ, Bool, Option, none, some, List, [], ◌∷◌, length, Result, ok, err, ◌>>=◌,
  send_failed, if◌then◌else◌,
}
use d_hotsuff.Prelude.Table.{Table, lookup, insert}

-- *grpc.ClientConn, by what tells connections apart
abbrev pub Conn : Type 0
Conn = ℕ

abbrev pub ConnPool : Type 0
ConnPool = Table Bytes Conn

abbrev pub new_conn_pool : ConnPool
new_conn_pool = []

-- grpc.DialContext with the pool's options, and the Close of a connection
pub record Grpc : Type 0 where
  pub dial : Bytes → Result Conn
  pub close_conn : Conn → Result (Unit {0})

dialled : ConnPool → Bytes → Result Conn → ConnPool × Result Conn
dialled p addr (err e) = (p, err e)
dialled p addr (ok conn) = (insert addr conn p, ok conn)

cached_or_dial : Grpc → ConnPool → Bytes → Option Conn → ConnPool × Result Conn
unfolding dialled
cached_or_dial g p addr (some conn) = (p, ok conn)
cached_or_dial g p addr none = dialled p addr (g.dial addr)

-- GetConn under the write lock
unfoldable pub locked_get : Grpc → ConnPool → Bytes → ConnPool × Result Conn
unfolding cached_or_dial
locked_get g p addr = cached_or_dial g p addr (lookup addr p)

fast_or_locked : Grpc → Bytes → ConnPool → Option Conn → ConnPool × Result Conn
unfolding locked_get
fast_or_locked g addr p (some conn) = (p, ok conn)
fast_or_locked g addr p none = locked_get g p addr

-- GetConn: `before` is the pool when the read lock is held, `p` when the write lock is
unfoldable pub get_conn : Grpc → ConnPool → ConnPool → Bytes → ConnPool × Result Conn
unfolding fast_or_locked
get_conn g before p addr = fast_or_locked g addr p (lookup addr before)

-- GetClient: a stub is its connection
abbrev pub get_client : Grpc → ConnPool → ConnPool → Bytes → ConnPool × Result Conn
get_client = get_conn

first_error : Result (Unit {0}) → Result (Unit {0}) → Result (Unit {0})
first_error (err e) rest = err e
first_error (ok u) rest = rest

-- the loop of Close, in the order in which it meets the entries
unfoldable pub close_all : Grpc → ConnPool → Result (Unit {0})
unfolding first_error
close_all g [] = ok tt
close_all g ((addr, conn) ∷ p) = first_error (g.close_conn conn) (close_all g p)

unfoldable pub close : Grpc → ConnPool → ConnPool × Result (Unit {0})
close g p = ([], close_all g p)

abbrev pub pool_len : ConnPool → ℕ
pool_len p = length p
