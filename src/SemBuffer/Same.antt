-- ===== src/SemBuffer/Same.antt =====
-- The calls of SysOpy/lab9/src/zad2/main.c against those of zad1.
use semestr.Prelude.{◌≡◌, Option, none, some, arith}
use semestr.Buffer
use semestr.Buffer.{Conf, Shared}
use semestr.SemBuffer.{Result, add_to_buffer, remove_from_buffer}

-- zad1's result with a broadcast for every post.
abbrev pub as_broadcasts : Result → Buffer.Result
as_broadcasts r = record {
  mem = r.mem;
  outcome = r.outcome;
  broadcasts_empty = r.posts_empty;
  broadcasts_full = r.posts_full;
}

-- A call posts where zad1's call broadcasts, and does the same otherwise.
pub add_to_buffer-same :
    (c : Conf) (s : Shared) → as_broadcasts (add_to_buffer c s) ≡ Buffer.add_to_buffer c s
unfolding add_to_buffer Buffer.add_to_buffer
add_to_buffer-same c s = ground arith

abbrev pub as_broadcasts_option : Option Result → Option Buffer.Result
as_broadcasts_option none = none
as_broadcasts_option (some r) = some (as_broadcasts r)

pub remove_from_buffer-same :
    (c : Conf) (s : Shared)
    → as_broadcasts_option (remove_from_buffer c s) ≡ Buffer.remove_from_buffer c s
unfolding remove_from_buffer Buffer.remove_from_buffer
remove_from_buffer-same c s = ground arith
