-- ===== src/DirSearch.antt =====
-- SysOpy/lab2/src/zad2/zad2.c and SysOpy/lab3/src/zad1/zad1.c: programs that list the regular files below
-- a directory whose date compares with a given one. Mode 0 walks the directories itself, in lab3
-- with a process for each; mode 1 leaves the walk to `nftw`, whose calls of
-- `fn` are an argument. A path is the names below the given
-- directory; the local date of a time, by `localtime` and `strftime`, is an argument.
pub mod Dates
pub mod Modes
pub mod Processes
pub mod Walk
mod Tests
use semestr.Prelude.{
  ℕ, zero, suc, ◌+◌, ◌*◌, ◌%◌, Bool, true, false, not, ◌&&◌, ◌||◌, Option, none, some, List, [],
  ◌∷◌, ◌++◌, ltb, ◌==◌, if◌then◌else◌,
}
use semestr.CString.{Text, same_text}

-- What `lstat` says a file is; `other` is a device, a FIFO or a socket.
pub data Kind : Type 0 where
  regular symlink other : Kind

-- `struct stat` of a file that is no directory.
pub record Stat : Type 0 where
  pub kind : Kind
  pub mtime : ℕ

-- A file, or a directory with the entries that `readdir` gives, and whether `opendir` succeeds.
mutual
  pub data Tree : Type 0 where
    file : Stat → Tree
    dir : Bool → Entries → Tree

  pub data Entries : Type 0 where
    end : Entries
    entry : Text → Tree → Entries → Entries

pub record Date : Type 0 where
  pub year : ℕ
  pub month : ℕ
  pub day : ℕ

abbrev pub is_leap : ℕ → Bool
is_leap y = y % 4 == 0 && (not (y % 100 == 0) || y % 400 == 0)

-- The days of the month that `tm_mon` numbers from 0.
abbrev pub month_length : ℕ → ℕ → ℕ
month_length y m =
    if m == 1
    then (if is_leap y then 29 else 28)
    else if m == 3 || m == 5 || m == 8 || m == 10
    then 30
    else 31

-- The days before a month of a year, and before a year.
unfoldable pub month_start : ℕ → ℕ → ℕ
month_start y zero = 0
month_start y (suc m) = month_start y m + month_length y m

unfoldable pub year_start : ℕ → ℕ
year_start zero = 0
year_start (suc y) = year_start y + (if is_leap y then 366 else 365)

-- `mktime`, in days: the fields count from 1900, 0 and 1, and a day past its month runs on into the
-- next one. Twelve months are a year, so `tm_mon` may be 12.
unfoldable pub mktime : ℕ → ℕ → ℕ → ℕ
unfolding year_start month_start
mktime tm_year tm_mon tm_mday =
    year_start (1900 + tm_year) + month_start (1900 + tm_year) tm_mon + tm_mday

-- `stringToDate`, of the numbers that `sscanf` reads, if it reads three.
unfoldable pub string_to_date : Option Date → ℕ
unfolding mktime
string_to_date none = 0
string_to_date (some d) = mktime d.year d.month d.day

abbrev pub equal : Text
equal = b'=' ∷ []

abbrev pub greater : Text
greater = b'>' ∷ []

abbrev pub less : Text
less = b'<' ∷ []

-- What the program prints: a file with its path, or that a directory cannot be opened.
pub data Out : Type 0 where
  listed : List Text → Stat → Out
  directory_error : Out

-- The globals `operator` and `date`, and the local date of a time.
pub record Query : Type 0 where
  pub operator : Text
  pub date : Option Date
  pub local_date : ℕ → Date

abbrev pub dates : Query → Stat → ℕ × ℕ
dates q s = (string_to_date q.date, string_to_date (some (q.local_date s.mtime)))

-- The tests of `dirInfo_stat`, which skip a file.
unfoldable pub passes : Query → Stat → Bool
passes q s =
    let (arg_date, system_date) = dates q s in
    if same_text q.operator equal
    then arg_date == system_date
    else if same_text q.operator greater
    then ltb arg_date system_date
    else if same_text q.operator less
    then ltb system_date arg_date
    else true

-- The test of `dirInfo_stat` for a regular file.
abbrev pub is_regular : Kind → Bool
is_regular regular = true
is_regular _ = false

-- The flag of `nftw` is FTW_F for a file that is neither a directory nor a symbolic link.
abbrev pub is_ftw_f : Kind → Bool
is_ftw_f symlink = false
is_ftw_f _ = true

-- `fn`, on a file that is no directory.
unfoldable pub fn : Query → List Text → Stat → List Out
fn q path s =
    let (arg_date, system_date) = dates q s in
    let chosen =
      if same_text q.operator equal
      then arg_date == system_date
      else if same_text q.operator greater
      then ltb arg_date system_date
      else if same_text q.operator less
      then ltb system_date arg_date
      else false in
    if is_ftw_f s.kind && chosen then listed path s ∷ [] else []

abbrev pub is_dot : Text → Bool
is_dot name = same_text name (b'.' ∷ []) || same_text name (b'.' ∷ b'.' ∷ [])

-- What a run has printed, and whether it has called `exit`.
pub record Scan : Type 0 where
  pub out : List Out
  pub exited : Bool

abbrev pub keep_on : List Out → Scan
keep_on out = record { out = out; exited = false }

-- One part of a run, then the rest, unless the part calls `exit`.
abbrev pub and_then : Scan → Scan → Scan
and_then a b = if a.exited then a else record { out = a.out ++ b.out; exited = b.exited }

abbrev pub failed : Scan
failed = record { out = directory_error ∷ []; exited = true }

-- The end of the loop's body in `dirInfo_stat`, for a file that is no directory.
abbrev pub show_file : Query → List Text → Stat → List Out
show_file q path s = if is_regular s.kind && passes q s then listed path s ∷ [] else []

-- The loop's body for an entry, with what the walk of it does.
abbrev pub at_entry : Query → List Text → Scan → Tree → Scan
at_entry q path walked (file s) = keep_on (show_file q path s)
at_entry q path walked (dir r es) = walked

-- `dirInfo_stat` of lab2: `opendir` fails on a file.
unfoldable mutual
  unfolding passes

  pub dir_info_stat : Query → List Text → Tree → Scan
  dir_info_stat q path (file s) = failed
  dir_info_stat q path (dir true es) = dir_info_entries q path es
  dir_info_stat q path (dir false es) = failed

  pub dir_info_entries : Query → List Text → Entries → Scan
  dir_info_entries q path end = keep_on []
  dir_info_entries q path (entry name t es) =
      let rest = dir_info_entries q path es in
      let walked = dir_info_stat q (path ++ name ∷ []) t in
      if is_dot name then rest else and_then (at_entry q (path ++ name ∷ []) walked t) rest

-- `dirInfo_nftw`, of the files that are no directories that `nftw` gives to `fn`, in its order: on the
-- others `fn` prints nothing, and it never stops the walk.
unfoldable pub dir_info_nftw : Query → List (List Text × Stat) → List Out
unfolding fn
dir_info_nftw q [] = []
dir_info_nftw q (f ∷ visited) = fn q f.0 f.1 ++ dir_info_nftw q visited

-- `dirInfo_stat` of lab3: a child process lists each directory, and its `exit` ends only itself. The
-- parent waits for it, as `vfork` says.
unfoldable mutual
  unfolding passes

  pub dir_info_vfork : Query → List Text → Tree → Scan
  dir_info_vfork q path (file s) = failed
  dir_info_vfork q path (dir true es) = vfork_entries q path es
  dir_info_vfork q path (dir false es) = failed

  pub vfork_entries : Query → List Text → Entries → Scan
  vfork_entries q path end = keep_on []
  vfork_entries q path (entry name t es) =
      let rest = vfork_entries q path es in
      let child = dir_info_vfork q (path ++ name ∷ []) t in
      if is_dot name
      then rest
      else and_then (at_entry q (path ++ name ∷ []) (keep_on child.out) t) rest

-- `parse`, of the arguments after the program's name, with the number that `atoi` reads from the
-- last: what it does is to list in one of the modes, or to print the help.
pub data Mode : Type 0 where
  by_stat by_nftw help : Mode

unfoldable pub parse : ℕ → Text → ℕ → Mode
parse argc operator mode =
    if not (argc == 5)
    then help
    else if same_text operator equal && same_text operator less && same_text operator greater
    then help
    else if mode == 0
    then by_stat
    else if mode == 1
    then by_nftw
    else help
