-- ===== src/Records.antt =====
-- SysOpy/lab2/src/zad1/zad1.c: `sort` sorts the records of a file in place by their first byte, and
-- `copy` copies the first records of a file. A file is its bytes. Both branches of each function,
-- by the C library and by system calls, make the same accesses, so each is one function here; the
-- accesses succeed, and no offset or count exceeds an `int`.
pub mod Bytes
pub mod Insertion
pub mod Sort
pub mod Copy
pub mod Program
mod Tests
use semestr.Prelude.{
  ℕ, zero, suc, ◌+◌, ◌-◌, ◌*◌, Bool, Option, none, some, List, [], ◌∷◌, ◌++◌, length, take, drop,
  get_or, replicate, ltb, leb, ◌==◌, if◌then◌else◌,
}

abbrev pub Bytes : Type 0
Bytes = List ℕ

-- `fseek` or `lseek` to `offset`, then `fread` or `read` of `n` bytes into `buffer`.
unfoldable pub read_at : Bytes → ℕ → ℕ → Bytes → Bytes
read_at file offset n buffer =
    let got = take n (drop offset file) in got ++ drop (length got) buffer

-- The same with `fwrite` or `write`; a gap after the end of the file is filled with zeros.
unfoldable pub write_at : Bytes → ℕ → Bytes → Bytes
write_at file offset bytes =
    take offset file
    ++ (replicate (offset - length file) 0 ++ (bytes ++ drop (offset + length bytes) file))

-- `buffer[0]`, which the records are sorted by.
abbrev pub key : Bytes → ℕ
key record' = get_or record' 0 0

-- What the `do` loop of `sort` leaves: the file, `j + 1` and `buffer2`.
pub record Shifted : Type 0 where
  pub file : Bytes
  pub next_j : ℕ
  pub buffer2 : Bytes

-- The `do` loop from `j = next_j - 1` on; with `next_j` 0 the test `j >= 0` ends it.
unfoldable pub shift : ℕ → Bytes → Bytes → ℕ → Bytes → Shifted
shift size buffer1 file zero buffer2 = record { file = file; next_j = 0; buffer2 = buffer2 }
shift size buffer1 file (suc j) buffer2 =
    let read = read_at file (size * j) size buffer2 in
    let rest = shift size buffer1 (write_at file (size * (j + 1)) read) j read in
    if ltb (key buffer1) (key read)
    then rest
    else record { file = file; next_j = j; buffer2 = read }

-- The locals of `sort` with the file.
pub record Sorting : Type 0 where
  pub file : Bytes
  pub buffer1 : Bytes
  pub buffer2 : Bytes

-- The body of the `for` loop of `sort`.
unfoldable pub sort_round : ℕ → ℕ → Sorting → Sorting
sort_round size i s =
    let record' = read_at s.file (size * i) size s.buffer1 in
    let end = shift size record' s.file i s.buffer2 in
    let offset =
      if leb (key end.buffer2) (key record') then size * (end.next_j + 1) else size * end.next_j in
    record { file = write_at end.file offset record'; buffer1 = record'; buffer2 = end.buffer2 }

-- The `for` loop of `sort` from `i` on, with the rounds that are left.
unfoldable pub sort_rounds : ℕ → ℕ → ℕ → Sorting → Sorting
sort_rounds size zero i s = s
sort_rounds size (suc n) i s = sort_rounds size n (i + 1) (sort_round size i s)

-- `sort`: what the file holds afterwards.
unfoldable pub sort : ℕ → ℕ → Bytes → Bytes
sort number_of_records record_size file =
    (sort_rounds record_size (number_of_records - 1) 1 (record {
      file = file;
      buffer1 = replicate record_size 0;
      buffer2 = replicate record_size 0;
    })).file

-- The `while` loop of `copy` on fuel: what is left of the source, `recNum`, and the destination so
-- far; `none` is fuel that ran out. A `recNum` below 0 only makes `recNum > 0` fail, as 0 does.
unfoldable pub copy_loop : ℕ → ℕ → Bytes → ℕ → Bytes → Option Bytes
copy_loop zero buffer_size source rec_num dest = none
copy_loop (suc fuel) buffer_size source rec_num dest =
    let buffer = take buffer_size source in
    let buf = length buffer in
    let rest =
      copy_loop fuel buffer_size (drop buffer_size source) (rec_num - buf)
        (dest ++ (if ltb buf rec_num then buffer else take rec_num buffer)) in
    if buf == 0 then some dest else if rec_num == 0 then some dest else rest

-- `copy`: what the destination holds, from an empty file on.
unfoldable pub copy : ℕ → ℕ → ℕ → Bytes → Option Bytes
copy how_many_records buffer_size record_size source =
    copy_loop (suc (length source)) buffer_size source (how_many_records * record_size) []
