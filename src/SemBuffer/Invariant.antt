-- ===== src/SemBuffer/Invariant.antt =====
-- What holds in every state that the threads of SysOpy/lab9/src/zad2/main.c can reach.
use semestr.Prelude.{
  ℕ, ◌<◌, ◌≡◌, ◌≢◌, refl, ◌∙◌, sym, ap, subst, ◌⊎◌, inl, inr, Bool, false, none, some, List, [],
  arith, ◌==◌, Bool-cases, Option-cases,
}
use semestr.Buffer
use semestr.Buffer.{Conf, Line, Shared}
use semestr.Buffer.History.{Inv, start-Inv, numbered, matching, found_lines}
use semestr.SemBuffer.{Result, add_to_buffer, remove_from_buffer}
use semestr.SemBuffer.Same.{
  as_broadcasts, as_broadcasts_option, add_to_buffer-same, remove_from_buffer-same,
}
use semestr.SemBuffer.Threads.{
  Pc, running, past_empty, past_full, System, Step, consume, produce, pass_empty, pass_full,
  give_empty, give_full, Reach, begin, next, Placed, move, move-Placed, posted, next_pc, settle,
  add_to_buffer-Placed, add_to_buffer-next, remove_from_buffer-Placed, remove_from_buffer-next,
}

-- Some thread stands at `p`.
abbrev pub At : Pc → (ℕ → Pc) → Type 0
At p pc = (i : ℕ) × (pc i ≡ p)

-- The invariant: the lines, the threads' places, and that a semaphore at 0 has been taken by a
-- thread that will post to it, or that the buffer is empty before the end of the file.
pub record SysInv (c : Conf) (file : List (List ℕ)) (s : System) : Type 0 where
  pub taken : List Line
  pub queue : List Line
  pub lines : Inv c file s.mem taken queue
  pub placed : (i : ℕ) → Placed c s.mem i (s.pc i)
  pub full_open : s.full_sem ≡ 0 → At past_full s.pc
  pub empty_open :
      s.empty_sem ≡ 0
      → At past_empty s.pc ⊎ ((s.mem.number_of_elements ≡ 0) × (s.mem.end_of_file ≡ false))

At-move : (pc : ℕ → Pc) (i : ℕ) (p q : Pc) → pc i ≢ p → At p pc → At p (move pc i q)
At-move pc i p q ne (j, e) = (
  j,
  elim (Bool-cases (i == j)) [
    | inl same ↦ let eq : i ≡ j = ground arith in absurd (ne (ap pc eq ∙ e))
    | inr other ↦ rw other e
  ],
)

At-moved : (pc : ℕ → Pc) (i : ℕ) (p : Pc) → At p (move pc i p)
At-moved pc i p = (i, ground arith)

posted-zero : (b : Bool) (n : ℕ) → posted b n ≡ 0 → (b ≡ false) × (n ≡ 0)
posted-zero b n e = (ground arith, ground arith)

-- The lines after a call, by zad1's calls.
add_to_buffer-Inv :
    {c : Conf} {file : List (List ℕ)} {m : Shared} {taken q : List Line}
    → Inv c file m taken q
    → (q' : List Line) × Inv c file (add_to_buffer c m).mem taken q'
add_to_buffer-Inv {c} {file} {m} {taken} v =
    let (q', v') = Buffer.History.add_to_buffer-Inv v in
    (q', subst (λ (x : Buffer.Result). Inv c file x.mem taken q') (sym (add_to_buffer-same c m)) v')

remove_from_buffer-Inv :
    {c : Conf} {file : List (List ℕ)} {m : Shared} {taken q : List Line} {r : Result}
    → Inv c file m taken q
    → remove_from_buffer c m ≡ some r
    → (taken' : List Line) × (q' : List Line) × Inv c file r.mem taken' q'
remove_from_buffer-Inv {c} {file} {m} {r = r} v e =
    let (r', taken', q', call, v') = Buffer.History.remove_from_buffer-Inv v in
    let shown : some (as_broadcasts r) ≡ some r' =
      ap as_broadcasts_option (sym e) ∙ remove_from_buffer-same c m ∙ call in
    let same : r' ≡ as_broadcasts r = cc in
    (taken', q', subst (λ (x : Buffer.Result). Inv c file x.mem taken' q') same v')

pub remove_from_buffer-total :
    {c : Conf} {file : List (List ℕ)} {m : Shared} {taken q : List Line}
    → Inv c file m taken q
    → (r : Result) × (remove_from_buffer c m ≡ some r)
remove_from_buffer-total {c} {m = m} v = elim (Option-cases (remove_from_buffer c m)) [
  | inl fault ↦
      let (r', _, _, call, _) = Buffer.History.remove_from_buffer-Inv v in
      let shown : as_broadcasts_option none ≡ some r' =
        ap as_broadcasts_option (sym fault) ∙ remove_from_buffer-same c m ∙ call in
      cc
  | inr found ↦ found
]

module _ (c : Conf) (room : 0 < c.buffer_length) where
  add_to_buffer-empty :
      (m : Shared)
      → m.number_of_elements ≡ 0
      → m.end_of_file ≡ false
      → (add_to_buffer c m).posts_empty ≡ false
      → ((add_to_buffer c m).mem.number_of_elements ≡ 0)
        × ((add_to_buffer c m).mem.end_of_file ≡ false)
  unfolding add_to_buffer
  add_to_buffer-empty m e f g = (ground arith, ground arith)

  remove_from_buffer-empty :
      (m : Shared) (r : Result)
      → m.number_of_elements ≡ 0
      → m.end_of_file ≡ false
      → remove_from_buffer c m ≡ some r
      → (r.mem.number_of_elements ≡ 0) × (r.mem.end_of_file ≡ false)
  unfolding remove_from_buffer
  remove_from_buffer-empty m r e f g = (ground arith, ground arith)

module _ {c : Conf} {file : List (List ℕ)} (room : 0 < c.buffer_length) where
  -- A call of thread `i`, whose effect on an empty buffer is given.
  settle-SysInv :
      (s : System) (i : ℕ) (r : Result) (taken q : List Line)
      → SysInv c file s
      → s.pc i ≡ running
      → Inv c file r.mem taken q
      → ((j : ℕ) → Placed c r.mem j (s.pc j))
      → Placed c r.mem i (next_pc c r.outcome)
      → (s.mem.number_of_elements ≡ 0
          → s.mem.end_of_file ≡ false
          → r.posts_empty ≡ false
          → (r.mem.number_of_elements ≡ 0) × (r.mem.end_of_file ≡ false))
      → SysInv c file (settle c s i r)
  settle-SysInv s i r taken q v e lines others own empty = record {
    taken = taken;
    queue = q;
    lines = lines;
    placed = move-Placed c r.mem s.pc i (next_pc c r.outcome) others own;
    full_open = λ z.
        let (_, closed) = posted-zero r.posts_full s.full_sem z in
        At-move s.pc i past_full _ (λ f. cc) (v.full_open closed);
    empty_open = λ z.
        let (quiet, closed) = posted-zero r.posts_empty s.empty_sem z in
        elim (v.empty_open closed) [
          | inl at ↦ inl (At-move s.pc i past_empty _ (λ f. cc) at)
          | inr (none_left, more) ↦ inr (empty none_left more quiet)
        ];
  }

  Step-SysInv : {s t : System} → Step c s t → SysInv c file s → SysInv c file t
  Step-SysInv {s} (consume i r lt e call) v =
      let (taken', q', lines') = remove_from_buffer-Inv v.lines call in
      settle-SysInv s i r taken' q' v e lines'
        (λ j. remove_from_buffer-Placed c s.mem v.lines.ended r call j (s.pc j) (v.placed j))
        (remove_from_buffer-next c s.mem v.lines.ended r call i lt)
        (λ a b _. remove_from_buffer-empty c room s.mem r a b call)
  Step-SysInv {s} (produce i from lt e) v =
      let (q', lines') = add_to_buffer-Inv v.lines in
      settle-SysInv s i (add_to_buffer c s.mem) v.taken q' v e lines'
        (λ j. add_to_buffer-Placed c s.mem v.lines.ended j (s.pc j) (v.placed j))
        (add_to_buffer-next c s.mem v.lines.ended i from) (add_to_buffer-empty c room s.mem)
  Step-SysInv {s} (pass_empty i e up) v = record {
    taken = v.taken;
    queue = v.queue;
    lines = v.lines;
    placed = move-Placed c s.mem s.pc i past_empty v.placed tt;
    full_open = λ z. At-move s.pc i past_full _ (λ f. cc) (v.full_open z);
    empty_open = λ z. inl (At-moved s.pc i past_empty);
  }
  Step-SysInv {s} (pass_full i e up) v = record {
    taken = v.taken;
    queue = v.queue;
    lines = v.lines;
    placed = move-Placed c s.mem s.pc i past_full v.placed tt;
    full_open = λ z. At-moved s.pc i past_full;
    empty_open = λ z. elim (v.empty_open z) [
      | inl at ↦ inl (At-move s.pc i past_empty _ (λ f. cc) at)
      | inr empty ↦ inr empty
    ];
  }
  Step-SysInv {s} (give_empty i e) v = record {
    taken = v.taken;
    queue = v.queue;
    lines = v.lines;
    placed = move-Placed c s.mem s.pc i running v.placed tt;
    full_open = λ z. At-move s.pc i past_full _ (λ f. cc) (v.full_open z);
    empty_open = λ z. absurd (omega arith);
  }
  Step-SysInv {s} (give_full i e) v = record {
    taken = v.taken;
    queue = v.queue;
    lines = v.lines;
    placed = move-Placed c s.mem s.pc i running v.placed tt;
    full_open = λ z. absurd (omega arith);
    empty_open = λ z. elim (v.empty_open z) [
      | inl at ↦ inl (At-move s.pc i past_empty _ (λ f. cc) at)
      | inr empty ↦ inr empty
    ];
  }

  pub Reach-SysInv : {s : System} → Reach c file s → SysInv c file s
  unfolding Buffer.start
  Reach-SysInv begin = record {
    taken = [];
    queue = [];
    lines = start-Inv c file room;
    placed = λ _. tt;
    full_open = λ z. absurd (omega arith);
    empty_open = λ z. inr (refl, refl);
  }
  Reach-SysInv (next r st) = Step-SysInv st (Reach-SysInv r)
