-- ===== src/Network/Pool/Connections.antt =====
-- GetConn of internal/network/pool.go, between its two locks.
use d_hotsuff.Prelude.{
  Bytes, bytes_eq, bytes_instance, ◌≡◌, inl, inr, refl, none, some, Result, ok, err, Error,
  Option-cases, if◌then◌else◌,
}
use d_hotsuff.Prelude.Table.{lookup, lookup-insert}
use d_hotsuff.Network.Pool.{Conn, ConnPool, Grpc, locked_get, get_conn, dialled}

-- Every connection of the one pool is that of the same address in the other.
abbrev pub Extends : ConnPool → ConnPool → Type 0
Extends p p' = (k : Bytes) (c : Conn) → lookup k p ≡ some c → lookup k p' ≡ some c

-- The pool behind the write lock decides: a connection that it holds is returned and the pool is
-- kept; otherwise a dial is made, whose error is returned and whose connection is added for this
-- address only.
pub data Outcome (g : Grpc) (addr : Bytes) (p : ConnPool) (out : ConnPool × Result Conn)
    : Type 0 where
  shared : (c : Conn) → lookup addr p ≡ some c → out ≡ (p, ok c) → Outcome g addr p out
  refused :
      (e : Error)
      → lookup addr p ≡ none
      → g.dial addr ≡ err e
      → out ≡ (p, err e)
      → Outcome g addr p out
  added :
      (c : Conn)
      → lookup addr p ≡ none
      → g.dial addr ≡ ok c
      → out.1 ≡ ok c
      → ((k : Bytes) → lookup k out.0 ≡ (if bytes_eq addr k then some c else lookup k p))
      → Outcome g addr p out

dialled-Outcome :
    (g : Grpc) (p : ConnPool) (addr : Bytes) (r : Result Conn)
    → lookup addr p ≡ none
    → g.dial addr ≡ r
    → Outcome g addr p (dialled p addr r)
unfolding dialled
dialled-Outcome g p addr (err e) missing dial = refused e missing dial refl
dialled-Outcome g p addr (ok c) missing dial =
    added c missing dial refl λ k. lookup-insert addr k c p

locked_get-Outcome :
    (g : Grpc) (p : ConnPool) (addr : Bytes) → Outcome g addr p (locked_get g p addr)
unfolding locked_get
locked_get-Outcome g p addr = elim (Option-cases (lookup addr p)) [
  | inl missing ↦ rw missing (dialled-Outcome g p addr (g.dial addr) missing refl)
  | inr (c, found) ↦ rw found (shared c found refl)
]

-- If the pool only grew between its two locks, GetConn returns the connection that the pool holds
-- for the address behind the second lock, whoever added it, and keeps the pool; if there is none
-- it dials, and returns the error with the pool kept, or the connection, added for this address
-- and no other.
pub get_conn-Outcome :
    (g : Grpc) (before p : ConnPool) (addr : Bytes)
    → Extends before p
    → Outcome g addr p (get_conn g before p addr)
unfolding get_conn
get_conn-Outcome g before p addr grown = elim (Option-cases (lookup addr before)) [
  | inl missing ↦ rw missing (locked_get-Outcome g p addr)
  | inr (c, found) ↦ rw found (shared c (grown addr c found) refl)
]
