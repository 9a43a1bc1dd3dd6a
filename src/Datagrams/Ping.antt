-- ===== src/Datagrams/Ping.antt =====
-- `ping` of SysOpy/lab10/src/zad2/server.c, a thread that `main` does not start, with what `recvfrom` gives it
-- for each slot: a datagram with its sender, or nothing within a second. That `sendto` succeeds is
-- taken for granted.
use semestr.Prelude.{
  ℕ, ◌+◌, ◌≡◌, ◌≢◌, refl, true, Option, Option-cases, none, some, List, [], ◌∷◌, ◌++◌, ◌==◌,
  if◌then◌else◌, inl, inr,
}
use semestr.CString.{Text}
use semestr.Datagrams.{Node}

-- What is sent: to an address.
abbrev pub Outgoing : Type 0
Outgoing = List (ℕ × Text)

-- A slot whose node is down; its type is -1, which the test for the local socket takes for true.
abbrev pub down : Node → Node
down n = record n { num = none; name = []; local = true }

-- What comes back for a slot that is in use. Anything but a '2' goes back to its sender behind a '5',
-- also the empty buffer of a node that is down.
unfoldable pub ping_node : Option (ℕ × Text) → Node → Node × Outgoing
ping_node none n = (down n, (n.addr, b'5' ∷ []) ∷ [])
ping_node (some (addr, [])) n = (record n { addr = addr }, (addr, b'5' ∷ []) ∷ [])
ping_node (some (addr, c ∷ text)) n =
    let back = if c == b'2' then [] else (addr, b'5' ∷ c ∷ text) ∷ [] in
    (record n { addr = addr }, back)

-- The body of the loop over the slots.
unfoldable pub ping_slot : Option (ℕ × Text) → Node → Node × Outgoing
unfolding ping_node
ping_slot got n = elim n.num [
  | none ↦ (n, [])
  | some k ↦ let (m, sent) = ping_node got n in (m, (n.addr, b'2' ∷ []) ∷ sent)
]

-- A pass over the slots from number `i` on.
unfoldable pub ping : (ℕ → Option (ℕ × Text)) → ℕ → List Node → List Node × Outgoing
unfolding ping_slot
ping got i [] = ([], [])
ping got i (n ∷ ns) =
    let (m, sent) = ping_slot (got i) n in
    let (ms, more) = ping got (i + 1) ns in (m ∷ ms, sent ++ more)

-- Each slot in use is asked, and its own node answers.
abbrev pub AllAnswer : (ℕ → Option (ℕ × Text)) → ℕ → List Node → Type 0
AllAnswer got i [] = Unit {0}
AllAnswer got i (n ∷ ns) =
    (n.num ≢ none → got i ≡ some (n.addr, b'2' ∷ [])) × AllAnswer got (i + 1) ns

-- The pings to the slots in use.
abbrev pub asked : List Node → Outgoing
asked [] = []
asked (n ∷ ns) = elim n.num [ none ↦ asked ns | some k ↦ (n.addr, b'2' ∷ []) ∷ asked ns ]

-- Where every node answers the ping itself, the table stays as it is, and nothing but the pings is sent.
pub ping-AllAnswer :
    (got : ℕ → Option (ℕ × Text)) (i : ℕ) (ns : List Node)
    → AllAnswer got i ns
    → ping got i ns ≡ (ns, asked ns)
unfolding ping ping_slot ping_node
ping-AllAnswer got i [] all = refl
ping-AllAnswer got i (n ∷ ns) all = elim (Option-cases n.num) [
  | inl free ↦ rw (free, ping-AllAnswer got (i + 1) ns all.1) refl
  | inr (k, used) ↦
      let answer : got i ≡ some (n.addr, b'2' ∷ []) = all.0 (λ e. cc) in
      rw (answer, used, ping-AllAnswer got (i + 1) ns all.1) refl
]
