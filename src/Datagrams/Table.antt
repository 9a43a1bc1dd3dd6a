-- ===== src/Datagrams/Table.antt =====
-- The table of SysOpy/lab10/src/zad2/server.c: nodes fill its slots from the first one on.
use semestr.Prelude.{
  ℕ, zero, suc, ◌+◌, ◌≤◌, ◌<◌, ◌≡◌, refl, ◌∙◌, ap, subst, ◌⊎◌, inl, inr, Bool, false, none, some,
  List, [], ◌∷◌, arith, ◌==◌, Bool-cases, Option-cases, replicate, length,
}
use semestr.CString.{Text, strtok}
use semestr.Datagrams.{
  Node, free_node, cluster_size, Server, start, name_taken, fill_first, Reply, register,
  on_datagram, Datagram, monitor,
}

-- From position `i` on, the slots below `k` hold the nodes with their positions as numbers, and the
-- others are free.
abbrev pub Numbered : ℕ → ℕ → List Node → Type 0
Numbered i k [] = Unit {0}
Numbered i k (c ∷ cs) =
    (((i < k) × (c.num ≡ some i)) ⊎ ((k ≤ i) × (c.num ≡ none))) × Numbered (i + 1) k cs

Numbered-free : (n i : ℕ) → Numbered i 0 (replicate n free_node)
Numbered-free zero i = tt
Numbered-free (suc n) i = (inr (omega arith, refl), Numbered-free n (i + 1))

Numbered-later : (cs : List Node) (i k : ℕ) → k < i → Numbered i k cs → Numbered i (k + 1) cs
Numbered-later [] i k h v = tt
Numbered-later (c ∷ cs) i k h (inl (below, e), v) = absurd (omega arith)
Numbered-later (c ∷ cs) i k h (inr (above, e), v) =
    (inr (omega arith, e), Numbered-later cs (i + 1) k (omega arith) v)

Numbered-fill_first :
    (node : Node) (cs : List Node) (i k : ℕ)
    → node.num ≡ some k
    → i ≤ k
    → Numbered i k cs
    → Numbered i (k + 1) (fill_first node cs)
unfolding fill_first
Numbered-fill_first node [] i k own h v = tt
Numbered-fill_first node (c ∷ cs) i k own h (inl (below, e), v) =
    rw (e, fill_first)
      (inl (omega arith, e), Numbered-fill_first node cs (i + 1) k own (omega arith) v)
Numbered-fill_first node (c ∷ cs) i k own h (inr (above, e), v) =
    let same : k ≡ i = omega arith in
    rw (e, fill_first)
      (inl (omega arith, own ∙ ap some same), Numbered-later cs (i + 1) k (omega arith) v)

length-fill_first : (node : Node) (cs : List Node) → length (fill_first node cs) ≡ length cs
unfolding fill_first
length-fill_first node [] = refl
length-fill_first node (c ∷ cs) = elim (Option-cases c.num) [
  | inl free ↦ rw (free, fill_first) refl
  | inr (n, used) ↦ rw (used, fill_first) (ap suc (length-fill_first node cs))
]

-- The table has all its slots, and its nodes stand in them by their numbers.
pub record Inv (s : Server) : Type 0 where
  pub size : length s.clients ≡ cluster_size
  pub numbered : Numbered 0 s.num_of_clients s.clients

start-Inv : Inv start
unfolding start
start-Inv = record { size = refl; numbered = Numbered-free cluster_size 0 }

register-Inv :
    (local : Bool) (addr : ℕ) (name : Text) (s : Server)
    → Inv s
    → Inv (register local addr name s).0
unfolding register
register-Inv local addr name s v = elim (Bool-cases (name_taken name s.clients)) [
  | inl old ↦ rw (old, register) v
  | inr new ↦
      rw (new, register)
        (record {
          size = length-fill_first _ s.clients ∙ v.size;
          numbered =
              Numbered-fill_first _ s.clients 0 s.num_of_clients refl (omega arith) v.numbered;
        })
]

-- No other datagram than a registration changes the server.
kept :
    (local : Bool) (addr c : ℕ) (rest : Text) (s t : Server) (r : Reply)
    → c == b'2' ≡ false
    → c == b'1' ≡ false
    → on_datagram local addr (c ∷ rest) s ≡ some (t, r)
    → s ≡ t
unfolding on_datagram
kept local addr c [] s t r other no_join e = ground arith
kept local addr c (p ∷ text) s t r other no_join e = elim (Option-cases (strtok [] text)) [
  | inl fault ↦ ground (arith, fault)
  | inr (line, read) ↦ ground (arith, read)
]

on_datagram-Inv :
    (local : Bool) (addr : ℕ) (text : Text) (s t : Server) (r : Reply)
    → Inv s
    → on_datagram local addr text s ≡ some (t, r)
    → Inv t
unfolding on_datagram
on_datagram-Inv local addr [] s t r v e = let same : s ≡ t = ground arith in subst Inv same v
on_datagram-Inv local addr (c ∷ rest) s t r v e = elim (Bool-cases (c == b'2')) [
  | inl ping ↦ let same : s ≡ t = ground arith in subst Inv same v
  | inr other ↦ elim (Bool-cases (c == b'1')) [
    | inl joins ↦ elim (Option-cases (strtok [] rest)) [
      | inl fault ↦ absurd (ground arith)
      | inr ((name, _), read) ↦
          let same : (register local addr name s).0 ≡ t = ground (arith, read) in
          subst Inv same (register-Inv local addr name s v)
    ]
    | inr no_join ↦ subst Inv (kept local addr c rest s t r other no_join e) v
  ]
]

monitor-Inv :
    (ds : List Datagram) (s t : Server) (rs : List Reply)
    → Inv s
    → monitor ds s ≡ some (t, rs)
    → Inv t
unfolding monitor
monitor-Inv [] s t rs v e = let same : s ≡ t = ground arith in subst Inv same v
monitor-Inv (d ∷ ds) s t rs v e = elim (Option-cases (on_datagram d.local d.addr d.text s)) [
  | inl fault ↦ absurd (ground arith)
  | inr ((u, r), done) ↦ elim (Option-cases (monitor ds u)) [
    | inl fault ↦ absurd (ground (arith, done, fault))
    | inr ((w, rs'), rest) ↦
        let same : w ≡ t = ground (arith, done, rest) in
        subst Inv same
          (monitor-Inv ds u w rs' (on_datagram-Inv d.local d.addr d.text s u r v done) rest)
  ]
]

-- Whatever datagrams the server has received since it started, its table has its 20 slots, and
-- those below `numOfClients` hold the nodes with their positions as numbers; the others are free.
pub monitor-Numbered :
    (ds : List Datagram) (t : Server) (rs : List Reply)
    → monitor ds start ≡ some (t, rs)
    → (length t.clients ≡ cluster_size) × Numbered 0 t.num_of_clients t.clients
monitor-Numbered ds t rs e = let v = monitor-Inv ds start t rs start-Inv e in (v.size, v.numbered)
