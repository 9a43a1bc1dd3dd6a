-- ===== src/Records/Sort.antt =====
-- `sort` of SysOpy/lab2/src/zad1/zad1.c is an insertion sort of the records.
use mathlib.Core.List.{Perm}
use mathlib.Core.List.Perm
use semestr.Prelude.{
  ℕ, suc, ◌+◌, ◌-◌, ◌*◌, ◌<◌, ◌≡◌, ◌≢◌, refl, ◌∙◌, sym, ap, List, [], ◌∷◌, ◌++◌, append-nil,
  append_assoc, length, length-append, length-replicate, arith, true, false, inl, inr, Bool-cases,
  ltb, leb, if◌then◌else◌,
}
use semestr.Records.{
  Bytes, key, read_at, write_at, Shifted, shift, Sorting, sort_round, sort_rounds, sort,
}
use semestr.Records.Bytes.{bytes, AllOf, bytes-append, read_at_lem, write_at_lem}
use semestr.Records.Insertion.{
  rev_onto, insert, insert_all, Ascending, rev_onto_rev, rev_onto-append, insert_all-perm,
  insert_all-Ascending,
}

-- The file around the record after those of `rp`.
bytes-rev_onto :
    (rp l : List Bytes) (rest : Bytes)
    → bytes (rev_onto rp l) ++ rest ≡ bytes (rev_onto rp []) ++ (bytes l ++ rest)
bytes-rev_onto rp l rest =
    ap (λ (rs : List Bytes). bytes rs ++ rest) (sym (rev_onto-append rp [] l))
    ∙ ap (λ (b : Bytes). b ++ rest) (bytes-append (rev_onto rp []) l)
    ∙ append_assoc (bytes (rev_onto rp [])) (bytes l) rest

module _ (size : ℕ) where
  length-bytes-rev_onto :
      (rp l : List Bytes)
      → AllOf size rp
      → length (bytes (rev_onto rp l)) ≡ size * length rp + length (bytes l)
  length-bytes-rev_onto [] l h = omega arith
  length-bytes-rev_onto (y ∷ rp) l h =
      omega (arith, length-bytes-rev_onto rp (y ∷ l) h.1, length-append y (bytes l), h.0)

  module _ (rp : List Bytes) (y : Bytes) (l : List Bytes) (rest : Bytes) (before : AllOf size rp)
      (fits : length y ≡ size) where
    at_record : length (bytes (rev_onto rp [])) ≡ size * length rp
    at_record = omega (arith, length-bytes-rev_onto rp [] before)

    around :
        (r : Bytes)
        → bytes (rev_onto rp (r ∷ l)) ++ rest ≡ bytes (rev_onto rp []) ++ (r ++ (bytes l ++ rest))
    around r =
        bytes-rev_onto rp (r ∷ l) rest
        ∙ ap (◌++◌ (bytes (rev_onto rp []))) (append_assoc r (bytes l) rest)

    read_record :
        (buffer : Bytes)
        → length buffer ≡ size
        → read_at (bytes (rev_onto rp (y ∷ l)) ++ rest) (size * length rp) size buffer ≡ y
    read_record buffer e =
        rw (around y, ← at_record, ← fits)
          (read_at_lem (bytes (rev_onto rp [])) y (bytes l ++ rest) buffer (fits ∙ sym e))

    write_record :
        (new : Bytes)
        → length new ≡ size
        → write_at (bytes (rev_onto rp (y ∷ l)) ++ rest) (size * length rp) new
          ≡ bytes (rev_onto rp (new ∷ l)) ++ rest
    write_record new e =
        rw (around y, around new, ← at_record)
          (write_at_lem (bytes (rev_onto rp [])) y (bytes l ++ rest) new (fits ∙ sym e))

  -- The write after the `do` loop.
  abbrev place : Bytes → Shifted → Bytes
  place x end =
      write_at end.file
        (if leb (key end.buffer2) (key x) then size * (end.next_j + 1) else size * end.next_j) x

  -- What a run of the `do` loop and the write after it come to.
  record Placed (x : Bytes) (end : Shifted) (rs : List Bytes) (rest : Bytes) : Type 0 where
    written : place x end ≡ bytes rs ++ rest
    buffer : length end.buffer2 ≡ size

  place-below :
      (x : Bytes) (end : Shifted)
      → ltb (key x) (key end.buffer2) ≡ true
      → place x end ≡ write_at end.file (size * end.next_j) x
  place-below x end e = let t : leb (key end.buffer2) (key x) ≡ false = ground arith in rw t

  place-above :
      (x : Bytes) (end : Shifted)
      → ltb (key x) (key end.buffer2) ≡ false
      → place x end ≡ write_at end.file (size * suc end.next_j) x
  place-above x end e =
      let t : leb (key end.buffer2) (key x) ≡ true = ground arith in
      let one : end.next_j + 1 ≡ suc end.next_j = omega arith in rw (t, one)

  shift-Placed :
      (x : Bytes) (rp : List Bytes) (z : Bytes) (l : List Bytes) (rest buffer : Bytes)
      → AllOf size rp
      → length z ≡ size
      → length x ≡ size
      → length buffer ≡ size
      → (rp ≡ [] → ltb (key x) (key buffer) ≡ true)
      → Placed x
          (shift size x (bytes (rev_onto rp (z ∷ l)) ++ rest) (length rp) buffer)
          (insert x rp l)
          rest
  unfolding shift
  shift-Placed x [] z l rest buffer all hz hx hb first = record {
    written =
        place-below x (record { file = bytes (z ∷ l) ++ rest; next_j = 0; buffer2 = buffer })
          (first refl)
        ∙ write_record [] z l rest tt hz x hx;
    buffer = hb;
  }
  shift-Placed x (y ∷ rp) z l rest buffer all hz hx hb first =
      rw (read_record rp y (z ∷ l) rest all.1 all.0 buffer hb)
        (elim (Bool-cases (ltb (key x) (key y))) [
          | inl e ↦
              rw (e, one, write_record (y ∷ rp) z l rest all hz y all.0)
                (shift-Placed x rp y (y ∷ l) rest y all.1 all.0 hx all.0 (λ _. e))
          | inr e ↦ rw e (record {
            written =
                place-above x
                  (record {
                    file = bytes (rev_onto (y ∷ rp) (z ∷ l)) ++ rest;
                    next_j = length rp;
                    buffer2 = y;
                  })
                  e
                ∙ write_record (y ∷ rp) z l rest all hz x hx;
            buffer = all.0;
          })
        ])
    where
      one : length rp + 1 ≡ suc (length rp)
      one = omega arith

  -- One round of the `for` loop inserts the next record among those before it.
  sort_round-file :
      (rp : List Bytes) (x : Bytes) (t : List Bytes) (rest : Bytes) (s : Sorting)
      → AllOf size rp
      → length x ≡ size
      → rp ≢ []
      → s.file ≡ bytes (rev_onto rp (x ∷ t)) ++ rest
      → length s.buffer1 ≡ size
      → length s.buffer2 ≡ size
      → (sort_round size (length rp) s).file ≡ bytes (insert x rp t) ++ rest
  unfolding sort_round
  sort_round-file rp x t rest s all hx some_before e h1 h2 =
      rw (e, read_record rp x t rest all hx s.buffer1 h1)
        (shift-Placed x rp x t rest s.buffer2 all hx hx h2 (λ z. absurd (some_before z))).written

  sort_round-buffers :
      (rp : List Bytes) (x : Bytes) (t : List Bytes) (rest : Bytes) (s : Sorting)
      → AllOf size rp
      → length x ≡ size
      → rp ≢ []
      → s.file ≡ bytes (rev_onto rp (x ∷ t)) ++ rest
      → length s.buffer1 ≡ size
      → length s.buffer2 ≡ size
      → (length (sort_round size (length rp) s).buffer1 ≡ size)
        × (length (sort_round size (length rp) s).buffer2 ≡ size)
  unfolding sort_round
  sort_round-buffers rp x t rest s all hx some_before e h1 h2 =
      rw (e, read_record rp x t rest all hx s.buffer1 h1)
        (
          hx,
          (shift-Placed x rp x t rest s.buffer2 all hx hx h2 (λ z. absurd (some_before z))).buffer,
        )

insert-append : (x : Bytes) (rp s t : List Bytes) → insert x rp (s ++ t) ≡ insert x rp s ++ t
insert-append x [] s t = refl
insert-append x (y ∷ rp) s t =
    ground (arith, insert-append x rp (y ∷ s) t, rev_onto-append rp (y ∷ x ∷ s) t)

module _ (size : ℕ) where
  AllOf-rev_onto : (rp l : List Bytes) → AllOf size rp → AllOf size l → AllOf size (rev_onto rp l)
  AllOf-rev_onto [] l h k = k
  AllOf-rev_onto (y ∷ rp) l h k = AllOf-rev_onto rp (y ∷ l) h.1 (h.0, k)

  AllOf-insert :
      (x : Bytes) (rp s : List Bytes)
      → length x ≡ size
      → AllOf size rp
      → AllOf size s
      → AllOf size (insert x rp s)
  AllOf-insert x [] s hx h k = (hx, k)
  AllOf-insert x (y ∷ rp) s hx h k = elim (Bool-cases (ltb (key x) (key y))) [
    | inl e ↦ rw e (AllOf-insert x rp (y ∷ s) hx h.1 (h.0, k))
    | inr e ↦ rw e (AllOf-rev_onto rp (y ∷ x ∷ s) h.1 (h.0, (hx, k)))
  ]

length-rev_onto : (rp l : List Bytes) → length (rev_onto rp l) ≡ length rp + length l
length-rev_onto [] l = omega arith
length-rev_onto (y ∷ rp) l = omega (arith, length-rev_onto rp (y ∷ l))

length-insert :
    (x : Bytes) (rp s : List Bytes) → length (insert x rp s) ≡ suc (length rp + length s)
length-insert x [] s = omega arith
length-insert x (y ∷ rp) s =
    ground (arith, length-insert x rp (y ∷ s), length-rev_onto rp (y ∷ x ∷ s))

module _ (size : ℕ) where
  sort_rounds-file :
      (t : List Bytes) (p : List Bytes) (i : ℕ) (rest : Bytes) (s : Sorting)
      → AllOf size p
      → AllOf size t
      → i ≡ length p
      → 0 < length p
      → s.file ≡ bytes (p ++ t) ++ rest
      → length s.buffer1 ≡ size
      → length s.buffer2 ≡ size
      → (sort_rounds size (length t) i s).file ≡ bytes (insert_all p t) ++ rest
  unfolding sort_rounds
  sort_rounds-file [] p i rest s hp ht hi some_before e h1 h2 =
      e ∙ ap (λ (l : List Bytes). bytes l ++ rest) (append-nil p)
  sort_rounds-file (x ∷ t) p i rest s hp ht hi some_before e h1 h2 =
      let rp : List Bytes = rev_onto p [] in
      let all : AllOf size rp = AllOf-rev_onto size p [] hp tt in
      let count : i ≡ length rp = omega (arith, length-rev_onto p []) in
      let not_empty : rp ≢ [] = λ z. absurd (omega (arith, ap length z)) in
      let here : s.file ≡ bytes (rev_onto rp (x ∷ t)) ++ rest =
        e ∙ ap (λ (l : List Bytes). bytes l ++ rest) (sym (rev_onto_rev p [] (x ∷ t))) in
      let file : (sort_round size i s).file ≡ bytes (insert x rp [] ++ t) ++ rest =
        rw (count, ← insert-append x rp [] t)
          (sort_round-file size rp x t rest s all ht.0 not_empty here h1 h2) in
      let buffers : (length (sort_round size i s).buffer1 ≡ size)
          × (length (sort_round size i s).buffer2 ≡ size) =
        rw count (sort_round-buffers size rp x t rest s all ht.0 not_empty here h1 h2) in
      sort_rounds-file t (insert x rp []) (i + 1) rest (sort_round size i s)
        (AllOf-insert size x rp [] ht.0 all tt) ht.1 (omega (arith, length-insert x rp []))
        (omega (arith, length-insert x rp [])) file buffers.0 buffers.1

-- The file that starts with the bytes of the records, all of the given size, ends up with the same
-- records, each as often, in rising order of their first bytes, and what follows them unchanged.
pub sort_lem :
    (size : ℕ) (rs : List Bytes) (rest : Bytes)
    → AllOf size rs
    → (rs' : List Bytes) × (sort (length rs) size (bytes rs ++ rest) ≡ bytes rs' ++ rest)
      × Perm rs' rs
      × Ascending 0 rs'
unfolding sort sort_rounds
sort_lem size [] rest all = ([], refl, Perm.refl [], tt)
sort_lem size (x ∷ t) rest all = (
  insert_all (x ∷ []) t,
  rw (less_one, sort)
      (sort_rounds-file size t (x ∷ []) 1 rest _ (all.0, tt) all.1 (omega arith) (omega arith) refl
        (length-replicate size 0) (length-replicate size 0)),
  insert_all-perm (x ∷ []) t,
  insert_all-Ascending (x ∷ []) t (omega arith, tt),
)
  where
    less_one : suc (length t) - 1 ≡ length t
    less_one = omega arith
