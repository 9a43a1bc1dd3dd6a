-- ===== src/Datagrams/Requests.antt =====
-- The requests of SysOpy/lab10/src/zad2, from `calc` in server.c over the node in client.c and back.
use semestr.Prelude.{
  ℕ, zero, suc, ◌+◌, ◌%◌, ◌<◌, ◌≡◌, refl, inl, inr, Bool, some, List, [], ◌∷◌, length, arith,
  Option-cases, get_elem?,
}
use semestr.Prelude.Int.{ℤ, pos, ◌-ℤ◌}
use semestr.CString.{Text}
use semestr.CString.Tokens.{Plain-nil, strtok-last}
use semestr.Cluster.Node.{calculate}
use semestr.Cluster.Requests.{result_text_lem}
use semestr.Datagrams.{
  Node, cluster_size, Server, printed, on_datagram, choose, request, node_receive,
}
use semestr.Datagrams.Table.{Numbered}

Numbered-used :
    (cs : List Node) (i k j : ℕ) (c : Node) (n : ℕ)
    → Numbered i k cs
    → get_elem? cs j ≡ some c
    → c.num ≡ some n
    → (n ≡ i + j) × (n < k)
Numbered-used [] i k j c n v at own = cc
Numbered-used (d ∷ cs) i k zero c n (inl (below, e), v) at own =
    let same : some n ≡ some i = ground (arith, e) in (ground arith, ground arith)
Numbered-used (d ∷ cs) i k zero c n (inr (above, e), v) at own = absurd (ground (arith, e))
Numbered-used (d ∷ cs) i k (suc j) c n (here, v) at own =
    let (e, below) = Numbered-used cs (i + 1) k j c n v at own in (omega arith, below)

-- In a table that is filled by number, `calc` picks a slot whose node has that slot's number, which
-- was given out, and takes that node's address.
pub choose-Numbered :
    (rs : List ℕ) (cs : List Node) (k p addr : ℕ)
    → Numbered 0 k cs
    → choose rs cs ≡ some (p, addr)
    → (p < k) × (c : Node) × (get_elem? cs p ≡ some c) × (c.num ≡ some p) × (c.addr ≡ addr)
unfolding choose
choose-Numbered [] cs k p addr v e = cc
choose-Numbered (r ∷ rs) cs k p addr v e = elim (Option-cases (get_elem? cs (r % cluster_size))) [
  | inl outside ↦ absurd (ground arith)
  | inr (c, at) ↦ elim (Option-cases c.num) [
    | inl free ↦ choose-Numbered rs cs k p addr v (ground arith)
    | inr (n, used) ↦
        let (own, below) = Numbered-used cs 0 k (r % cluster_size) c n v at used in
        let same : r % cluster_size ≡ p = ground arith in
        (omega arith, c, ground arith, ground arith, ground arith)
  ]
]

number_of : (p : ℕ) → pos (p + 1) -ℤ pos 1 ≡ pos p
unfolding ◌-ℤ◌
number_of p = ground arith

-- A node that computes the line of a request, with a value of at most 9 bytes, writes a datagram from
-- which the server, at any state and over any socket, prints that value and the slot that it sent the
-- request to, and changes nothing.
pub request-printed :
    (print : ℤ → Text) (p : ℕ) (line : Text) (value : ℤ) (d : ℕ) (ds : Text) (local : Bool)
    (addr : ℕ) (s : Server)
    → calculate line ≡ some value
    → print value ≡ d ∷ ds
    → length ds < 9
    → (reply : Text) × (node_receive print (request p line) ≡ some (some reply))
      × (on_datagram local addr reply s ≡ some (s, printed (d ∷ ds) (pos p)))
unfolding request node_receive on_datagram
request-printed print p line value d ds local addr s computed shown short = (
  b'3' ∷ (p + 1) ∷ d ∷ ds,
  rw (computed, result_text_lem print value d ds shown short) refl,
  rw (strtok-last [] d ds (Plain-nil (d ∷ ds)), number_of p) refl,
)
