-- ===== src/Cluster/Names.antt =====
-- The table of SysOpy/lab10/src/zad1/server.c: its slots are free or hold a named node, and no two
-- nodes have one name.
use semestr.Prelude.{
  ℕ, zero, suc, ◌+◌, ◌<◌, ◌≡◌, ◌≢◌, refl, ◌∙◌, sym, subst, ◌⊎◌, inl, inr, Bool, false, none, some,
  List, [], ◌∷◌, arith, ◌==◌, Bool-cases, Option-cases, replicate,
}
use semestr.CString.{Text, same_text}
use semestr.CString.Tokens.{same_text_sym, strtok-last, strtok-nil, Plain-nil}
use semestr.Cluster.{
  Slot, free_slot, Server, Answer, start, cluster_size, name_taken, fill_first, add_node, connect,
  ping_slots, ping,
}

-- A free slot has no name and no number; another has a name, a socket and a number that was given out.
abbrev pub IsSlot : ℕ → Slot → Type 0
IsSlot k c =
    ((c.fd ≡ none) × (c.name ≡ []) × (c.num ≡ none))
    ⊎ ((f : ℕ) × (n : ℕ) × (c.fd ≡ some f) × (c.num ≡ some n) × (c.name ≢ []) × (n < k))

abbrev pub AllSlots : ℕ → List Slot → Type 0
AllSlots k [] = Unit {0}
AllSlots k (c ∷ cs) = IsSlot k c × AllSlots k cs

-- The name of a node stands in no later slot.
abbrev pub Unique : List Slot → Type 0
Unique [] = Unit {0}
Unique (c ∷ cs) = (c.name ≢ [] → name_taken c.name cs ≡ false) × Unique cs

pub record Inv (s : Server) : Type 0 where
  pub slots : AllSlots s.num_of_clients s.clients
  pub unique : Unique s.clients

IsSlot-suc : (k : ℕ) (c : Slot) → IsSlot k c → IsSlot (k + 1) c
IsSlot-suc k c (inl free) = inl free
IsSlot-suc k c (inr (f, n, e, g, h, below)) = inr (f, n, e, g, h, omega arith)

AllSlots-suc : (k : ℕ) (cs : List Slot) → AllSlots k cs → AllSlots (k + 1) cs
AllSlots-suc k [] h = tt
AllSlots-suc k (c ∷ cs) h = (IsSlot-suc k c h.0, AllSlots-suc k cs h.1)

module _ (node : Slot) where
  AllSlots-fill_first :
      (k : ℕ) (cs : List Slot) → IsSlot k node → AllSlots k cs → AllSlots k (fill_first node cs)
  unfolding fill_first
  AllSlots-fill_first k [] h all = tt
  AllSlots-fill_first k (c ∷ cs) h all = elim (Option-cases c.fd) [
    | inl free ↦ rw (free, fill_first) (h, all.1)
    | inr (f, used) ↦ rw (used, fill_first) (all.0, AllSlots-fill_first k cs h all.1)
  ]

  name_taken-fill_first :
      (name : Text) (cs : List Slot)
      → same_text node.name name ≡ false
      → name_taken name cs ≡ false
      → name_taken name (fill_first node cs) ≡ false
  unfolding fill_first name_taken
  name_taken-fill_first name [] h e = refl
  name_taken-fill_first name (c ∷ cs) h e = ground (arith, name_taken-fill_first name cs h)

  Unique-fill_first :
      (cs : List Slot) → name_taken node.name cs ≡ false → Unique cs → Unique (fill_first node cs)
  unfolding fill_first name_taken
  Unique-fill_first [] e u = tt
  Unique-fill_first (c ∷ cs) e u = elim (Option-cases c.fd) [
    | inl free ↦ rw (free, fill_first) ((λ _. ground arith), u.1)
    | inr (f, used) ↦
        rw (used, fill_first)
          (
            (λ named.
                name_taken-fill_first c.name cs (ground (arith, same_text_sym node.name c.name))
                  (u.0 named)),
            Unique-fill_first cs (ground arith) u.1,
          )
  ]

module _ (alive : ℕ → Bool) where
  AllSlots-ping_slots : (k : ℕ) (cs : List Slot) → AllSlots k cs → AllSlots k (ping_slots alive cs)
  unfolding ping_slots
  AllSlots-ping_slots k [] all = tt
  AllSlots-ping_slots k (c ∷ cs) all = elim (Option-cases c.fd) [
    | inl free ↦ rw (free, ping_slots) (all.0, AllSlots-ping_slots k cs all.1)
    | inr (f, used) ↦ elim (Bool-cases (alive f)) [
      | inl lives ↦ rw (used, ping_slots, lives) (all.0, AllSlots-ping_slots k cs all.1)
      | inr dead ↦
          rw (used, ping_slots, dead) (inl (refl, refl, refl), AllSlots-ping_slots k cs all.1)
    ]
  ]

  name_taken-ping_slots :
      (name : Text) (cs : List Slot)
      → name ≢ []
      → name_taken name cs ≡ false
      → name_taken name (ping_slots alive cs) ≡ false
  unfolding ping_slots name_taken
  name_taken-ping_slots name [] named e = refl
  name_taken-ping_slots [] (c ∷ cs) named e = absurd (named refl)
  name_taken-ping_slots (x ∷ xs) (c ∷ cs) named e =
      ground (arith, name_taken-ping_slots (x ∷ xs) cs named)

  Unique-ping_slots : (cs : List Slot) → Unique cs → Unique (ping_slots alive cs)
  unfolding ping_slots
  Unique-ping_slots [] u = tt
  Unique-ping_slots (c ∷ cs) u = elim (Option-cases c.fd) [
    | inl free ↦
        rw (free, ping_slots)
          ((λ named. name_taken-ping_slots c.name cs named (u.0 named)), Unique-ping_slots cs u.1)
    | inr (f, used) ↦ elim (Bool-cases (alive f)) [
      | inl lives ↦
          rw (used, ping_slots, lives)
            ((λ named. name_taken-ping_slots c.name cs named (u.0 named)), Unique-ping_slots cs u.1)
      | inr dead ↦
          rw (used, ping_slots, dead) ((λ named. absurd (named refl)), Unique-ping_slots cs u.1)
    ]
  ]

-- `ping` keeps the table well-formed, whichever nodes live.
pub ping-Inv : (alive : ℕ → Bool) (s : Server) → Inv s → Inv (ping alive s)
unfolding ping
ping-Inv alive s v = record {
  slots = AllSlots-ping_slots alive s.num_of_clients s.clients v.slots;
  unique = Unique-ping_slots alive s.clients v.unique;
}

add_node-Inv :
    (client_fd : ℕ) (name : Text) (s : Server)
    → name ≢ []
    → Inv s
    → Inv (add_node client_fd name s).0
unfolding add_node
add_node-Inv client_fd name s named v = elim (Bool-cases (name_taken name s.clients)) [
  | inl old ↦ rw (old, add_node) v
  | inr new ↦
      rw (new, add_node)
        (record {
          slots =
              AllSlots-fill_first _ (s.num_of_clients + 1) s.clients
                (inr (client_fd, s.num_of_clients, refl, refl, named, omega arith))
                (AllSlots-suc s.num_of_clients s.clients v.slots);
          unique = Unique-fill_first _ s.clients new v.unique;
        })
]

AllSlots-free : (n : ℕ) → AllSlots 0 (replicate n free_slot)
AllSlots-free zero = tt
AllSlots-free (suc n) = (inl (refl, refl, refl), AllSlots-free n)

Unique-free : (n : ℕ) → Unique (replicate n free_slot)
Unique-free zero = tt
Unique-free (suc n) = ((λ named. absurd (named refl)), Unique-free n)

pub start-Inv : Inv start
unfolding start
start-Inv = record { slots = AllSlots-free cluster_size; unique = Unique-free cluster_size }

-- A connection with a name registers it; one without a name is undefined.
pub connect_lem :
    (client_fd c : ℕ) (name : Text) (s : Server)
    → connect client_fd (b'1' ∷ c ∷ name) s ≡ some (add_node client_fd (c ∷ name) s)
unfolding connect
connect_lem client_fd c name s = rw (strtok-last [] c name (Plain-nil (c ∷ name)))

-- A new connection keeps it well-formed, whatever the node sends.
pub connect-Inv :
    (client_fd : ℕ) (buffer : Text) (s t : Server) (a : Answer)
    → Inv s
    → connect client_fd buffer s ≡ some (t, a)
    → Inv t
unfolding connect
connect-Inv client_fd [] s t a v e = let same : s ≡ t = ground arith in rw (← same) v
connect-Inv client_fd (k ∷ []) s t a v e =
    let same : s ≡ t = ground (arith, strtok-nil) in rw (← same) v
connect-Inv client_fd (k ∷ c ∷ name) s t a v e = elim (Bool-cases (k == b'1')) [
  | inl register ↦
      let is_one : k ≡ b'1' = ground arith in
      let added : some (add_node client_fd (c ∷ name) s) ≡ some (t, a) =
        sym (connect_lem client_fd c name s)
        ∙ subst (λ x. connect client_fd (x ∷ c ∷ name) s ≡ some (t, a)) is_one e in
      let same : (add_node client_fd (c ∷ name) s).0 ≡ t = cc in
      subst Inv same (add_node-Inv client_fd (c ∷ name) s (λ z. cc) v)
  | inr other ↦ let same : s ≡ t = ground arith in subst Inv same v
]
