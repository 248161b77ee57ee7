-- ===== src/MMapFile.antt =====
-- include/memvanta/mmap_file.hpp and src/mmap_file.cpp: a file that is mapped into memory. The
-- system calls are parameters: their answers are in the record `Answers`, and each method returns
-- the calls that it made, in order. A descriptor of -1 and a null pointer are `none`.
pub mod Replay
pub mod Ownership
pub mod Advice
pub mod Advising
mod Tests
use mem_vanta.Prelude.{
  ℕ, ◌+◌, ◌-◌, ◌*◌, ◌/◌, ◌%◌, ◌≤◌, min, Bool, true, false, not, ◌||◌, ◌&&◌, Option, none, some,
  List, [], ◌∷◌, ◌++◌, Result, ok, err, ltb, leb, ◌==◌, if◌then◌else◌, add64, sub64, u64_max,
}
use mem_vanta.Prelude.Int.{ℤ, pos, negsuc}

pub record MMapFile : Type 0 where
  pub fd : Option ℕ
  pub data_at : Option ℕ
  pub size : ℕ
  pub advice_attempts : ℕ
  pub advice_failures : ℕ

-- A default-constructed file.
abbrev pub empty : MMapFile
empty = record { fd = none; data_at = none; size = 0; advice_attempts = 0; advice_failures = 0 }

pub data MMapError : Type 0 where
  open_failed fstat_failed empty_file too_large mmap_failed : MMapError

-- The calls that take or give back a resource, and `madvise` with its start and length.
pub data SystemCall : Type 0 where
  opens closes : ℕ → SystemCall
  maps unmaps : ℕ → ℕ → SystemCall
  advises : ℕ → ℕ → ℕ → SystemCall

-- What the system answers: `open`, the `st_size` of `fstat`, `mmap`, `sysconf(_SC_PAGESIZE)`, and
-- whether `madvise` succeeds.
pub record Answers : Type 0 where
  pub opened : Option ℕ
  pub stat_size : Option ℤ
  pub mapped : Option ℕ
  pub page_size : ℤ
  pub advised : Bool

abbrev unmap : Option ℕ → ℕ → List SystemCall
unmap none size = []
unmap (some address) size = unmaps address size ∷ []

abbrev close_fd : Option ℕ → List SystemCall
close_fd none = []
close_fd (some fd) = closes fd ∷ []

pub close : MMapFile → MMapFile × List SystemCall
close f =
    (record f { fd = none; data_at = none; size = 0 }, unmap f.data_at f.size ++ close_fd f.fd)

-- The bounds of the advice: whole pages around the range, cut at the end of the file.
pub advice_bounds : ℕ → ℕ → ℕ → ℕ → ℕ × ℕ
advice_bounds size page off len =
    let last = add64 off (min len (sub64 size off)) in
    let rem = last % page in
    let end_aligned =
      if not (rem == 0) && leb last (sub64 u64_max (sub64 page rem))
      then add64 last (sub64 page rem)
      else last in
    (off / page * page, min end_aligned size)

count_failure : MMapFile → MMapFile
count_failure f = record f {
  advice_attempts = add64 f.advice_attempts 1;
  advice_failures = add64 f.advice_failures 1;
}

count_success : MMapFile → MMapFile
count_success f = record f { advice_attempts = add64 f.advice_attempts 1 }

-- `advise_range` once the page size is known.
pub advise_pages : Answers → MMapFile → ℕ → ℕ → ℕ → ℕ → MMapFile × List SystemCall
unfolding count_success count_failure advice_bounds
advise_pages A f page off len advice =
    let (first, last) = advice_bounds f.size page off len in
    if leb last first then (f, []) else (
      if A.advised then count_success f else count_failure f,
      advises first (sub64 last first) advice ∷ [],
    )

abbrev is_null : Option ℕ → Bool
is_null none = true
is_null (some _) = false

pub advise_range : Answers → MMapFile → ℕ → ℕ → ℕ → MMapFile × List SystemCall
unfolding count_failure advise_pages
advise_range A f off len advice =
    if is_null f.data_at || ((len == 0) || leb f.size off) then (f, []) else elim A.page_size [
      | negsuc n ↦ (count_failure f, [])
      | pos page ↦ if page == 0 then (count_failure f, []) else advise_pages A f page off len advice
    ]

-- The constants of <sys/mman.h>.
abbrev pub madv_random : ℕ
madv_random = 1

abbrev pub madv_sequential : ℕ
madv_sequential = 2

abbrev pub madv_willneed : ℕ
madv_willneed = 3

abbrev pub madv_dontneed : ℕ
madv_dontneed = 4

-- The end of `open` that throws: `close`, after the calls so far.
give_up :
    MMapFile
    → List SystemCall
    → MMapError
    → MMapFile × List SystemCall × Result MMapError (Unit {0})
unfolding close
give_up f calls e = let (g, closing) = close f in (g, calls ++ closing, err e)

-- `open` once the size of the file is known, and is not zero.
map_file :
    Answers
    → MMapFile
    → List SystemCall
    → ℕ
    → MMapFile × List SystemCall × Result MMapError (Unit {0})
unfolding give_up advise_range
map_file A f calls size = if ltb u64_max size then give_up f calls too_large else elim A.mapped [
  | none ↦ give_up (record f { size = size }) calls mmap_failed
  | some address ↦
      let (g, advice) =
        advise_range A (record f { size = size; data_at = some address }) 0 size madv_random in
      (g, calls ++ maps address size ∷ advice, ok tt)
]

-- `open` once the file has a descriptor.
size_file :
    Answers → MMapFile → List SystemCall → MMapFile × List SystemCall × Result MMapError (Unit {0})
unfolding give_up map_file
size_file A f calls = elim A.stat_size [
  | none ↦ give_up f calls fstat_failed
  | some (negsuc n) ↦ give_up f calls empty_file
  | some (pos n) ↦ if n == 0 then give_up f calls empty_file else map_file A f calls n
]

pub open_file : Answers → MMapFile → MMapFile × List SystemCall × Result MMapError (Unit {0})
unfolding close size_file
open_file A f =
    let (g, calls) = close f in
    let h = record g { advice_attempts = 0; advice_failures = 0 } in
    elim A.opened [
      | none ↦ (h, calls, err open_failed)
      | some fd ↦ size_file A (record h { fd = some fd }) (calls ++ opens fd ∷ [])
    ]

-- MMapFile(MMapFile&&): the new file, and what is left of the old one.
pub move : MMapFile → MMapFile × MMapFile
move o = (o, empty)

-- operator=(MMapFile&&), of two different objects.
pub move_assign : MMapFile → MMapFile → MMapFile × MMapFile × List SystemCall
unfolding close
move_assign f o = let (g, calls) = close f in (o, empty, calls)

pub advise_sequential : Answers → MMapFile → ℕ → ℕ → MMapFile × List SystemCall
unfolding advise_range
advise_sequential A f off len = advise_range A f off len madv_sequential

pub advise_willneed : Answers → MMapFile → ℕ → ℕ → MMapFile × List SystemCall
unfolding advise_range
advise_willneed A f off len = advise_range A f off len madv_willneed

pub advise_dontneed : Answers → MMapFile → ℕ → ℕ → MMapFile × List SystemCall
unfolding advise_range
advise_dontneed A f off len = advise_range A f off len madv_dontneed
