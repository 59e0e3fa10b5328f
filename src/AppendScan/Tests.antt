-- ===== src/AppendScan/Tests.antt =====
-- src/obs_agent/append_scan.py: the theorems at a cache that counts lines, over a file that grows.
use recursive_harness_builde.Prelude.{
  split_on, split_last, starts_with, ℕ, suc, ◌≡◌, refl, none, some, [], ◌∷◌, arith, lookup, insert,
  remove, string_eq, take, drop, contains, nat_eq,
}
use recursive_harness_builde.AppendScan.Lines.{
  Folder, fold_line, fold_bytes, pieces, join_crlf, newlines,
}
use recursive_harness_builde.AppendScan.Whole.{IsLinewise, whole, fold_lines, file_lines}
use recursive_harness_builde.AppendScan.Scan.{
  File, Entry, Cache, scan, scan_file, read_blocks, answer_of, accepts, absorb, stored, move_to_end,
  evict, same_bytes,
}
use recursive_harness_builde.AppendScan.Writers.{
  World, set_file, Run, scanning, appending, replacing, stay, step,
}
use recursive_harness_builde.AppendScan.Runs.{IsSound, scan_refines, read_whole}
use recursive_harness_builde.AppendScan.Limits.{stale_scan}

-- Counts the lines, two bytes at a time; every byte is a character.
abbrev counter : Folder ℕ
counter = record {
  fold = λ n line. suc n;
  initial = 0;
  decode = λ bs. some bs;
  strip = λ text. text;
  needle = none;
  block_bytes = 2;
  maxsize = 4;
  revalidate = 300;
}

counter-IsLinewise : IsLinewise counter
counter-IsLinewise a b = refl

abbrev log : File
log = record { dev = 1; ino = 0; mtime = 5; ctime = 5; bytes = 97 ∷ 10 ∷ 98 ∷ [] }

abbrev longer : File
longer = record { dev = 1; ino = 0; mtime = 6; ctime = 6; bytes = 97 ∷ 10 ∷ 98 ∷ 10 ∷ 99 ∷ [] }

abbrev nothing : Cache ℕ
nothing = record { entries = []; full_scans = 0; incremental_scans = 0 }

abbrev bare : World ℕ
bare = record { files = λ key. none; cache = nothing; fresh = 0 }

abbrev written : World ℕ
written = record bare { files = set_file "log" (some log) bare.files; fresh = 1 }

abbrev kept : World ℕ
kept = record written { cache = (scan counter 10 "log" (some log) nothing).0 }

abbrev grown : World ℕ
grown = record kept { files = set_file "log" (some longer) kept.files }

growing : Run counter bare grown
growing =
    step (step (step (stay bare) (replacing bare "log" log refl)) (scanning written 10 "log"))
      (appending kept "log" log (10 ∷ 99 ∷ []) 6 6 refl)

bare-IsSound : IsSound counter counter-IsLinewise bare
bare-IsSound = record { used = λ key f h. ground (arith, h); known = tt }

scan_refines_example :
    (scan counter 20 "log" (grown.files "log") grown.cache).1
    ≡ read_whole counter counter-IsLinewise (grown.files "log")
scan_refines_example =
    scan_refines counter counter-IsLinewise (omega arith) bare grown growing bare-IsSound 20 "log"

-- The second scan reads on from the first one.
reads_on : (scan counter 20 "log" (some longer) grown.cache).0.incremental_scans ≡ 1
unfolding scan scan_file read_blocks take drop split_last absorb fold_bytes fold_line split_on
    stored move_to_end evict accepts same_bytes lookup insert remove
reads_on = refl

counts_lines : whole counter longer.bytes ≡ some 3
unfolding fold_lines file_lines fold_bytes fold_line split_on pieces contains
counts_lines = refl

-- A line that ends with a carriage return and a newline counts twice.
counts_twice : whole counter (97 ∷ 13 ∷ 10 ∷ []) ≡ some 2
unfolding fold_lines file_lines fold_bytes fold_line split_on pieces contains newlines join_crlf
    starts_with
counts_twice = refl

abbrev garbage : Cache ℕ
garbage = record nothing {
  entries =
      (
        "log",
        record {
          dev = 1;
          ino = 0;
          offset = 2;
          head = 97 ∷ [];
          before = 10 ∷ [];
          state = 77;
          verified_at = 10;
          size = 3;
          mtime = 5;
          ctime = 5;
        },
      )
      ∷ [];
}

stale_scan_example :
    (scan counter 310 "log" (some log) garbage).1 ≡ answer_of counter (whole counter log.bytes)
unfolding lookup
stale_scan_example =
    stale_scan counter counter-IsLinewise (omega arith) 310 "log" log garbage
      (λ e h. ground (arith, found e h))
  where
    found : (e : Entry ℕ) → lookup "log" garbage.entries ≡ some e → e.verified_at ≡ 10
    found e h = ground (arith, h)
