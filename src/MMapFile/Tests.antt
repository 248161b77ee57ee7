-- ===== src/MMapFile/Tests.antt =====
-- The theorems on mapped files at a file of 5000 bytes, with pages of 4096.
use mem_vanta.Prelude.{◌≡◌, ap, arith, true, some, [], ◌∷◌}
use mem_vanta.Prelude.Int.{pos, pos_part}
use mem_vanta.MMapFile.{
  advise_sequential, advise_willneed, advise_dontneed, MMapFile, empty, Answers, open_file,
  move_assign, madv_sequential, madv_willneed, madv_dontneed,
}
use mem_vanta.MMapFile.Replay.{Held, replay, with_file}
use mem_vanta.MMapFile.Advising.{Advises, advise-Advises}
use mem_vanta.MMapFile.Ownership.{Opened, open_file-Opened, move_assign-replay}

abbrev answers : Answers
answers = record {
  opened = some 3;
  stat_size = some (pos 5000);
  mapped = some 65536;
  page_size = pos 4096;
  advised = true;
}

abbrev rest : Held
rest = record { fds = 0 ∷ 1 ∷ 2 ∷ []; mappings = [] }

-- A file that is open already.
abbrev other : MMapFile
other = record empty { fd = some 7; data_at = some 4096; size = 100 }

open_file-Opened_example :
    Opened answers rest
      (replay (open_file answers other).1 (with_file other rest))
      ((open_file answers other).0, (open_file answers other).2)
open_file-Opened_example = open_file-Opened answers other rest

move_assign-replay_example :
    let (g, left, calls) = move_assign other empty in
    (replay calls (with_file other (with_file empty rest)) ≡ some (with_file g rest))
    × (with_file left rest ≡ rest)
    × (g ≡ empty)
move_assign-replay_example = move_assign-replay other empty rest

advise-Advises_example :
    Advises answers other 10 20 madv_sequential (advise_sequential answers other 10 20)
    × Advises answers other 10 20 madv_willneed (advise_willneed answers other 10 20)
    × Advises answers other 10 20 madv_dontneed (advise_dontneed answers other 10 20)
advise-Advises_example =
    advise-Advises answers other 10 20 (omega arith) λ page e. omega (arith, ap pos_part e)
