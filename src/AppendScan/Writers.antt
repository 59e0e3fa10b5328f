-- ===== src/AppendScan/Writers.antt =====
-- src/obs_agent/append_scan.py: a cache, the files that it scans, and what the writers of session files
-- do to them.
use recursive_harness_builde.Prelude.{
  IsLine, ℕ, suc, ◌≡◌, String, Option, none, some, List, ◌++◌, ◌==◌, nat_eq, string_eq,
  if◌then◌else◌,
}
use recursive_harness_builde.AppendScan.Lines.{Folder}
use recursive_harness_builde.AppendScan.Scan.{File, Cache, scan, clear}

-- The file system and one cache.
pub record World (S : Type 0) : Type 0 where
  pub files : String → Option File
  pub cache : Cache S
  pub fresh : ℕ  -- the next inode

abbrev pub set_file : String → Option File → (String → Option File) → String → Option File
set_file key o files k = if key == k then o else files k

module _ {S : Type 0} (x : Folder S) where
  -- A scan, a reset, or what a writer does to a file: it appends, it cuts a last line without a newline, it puts
  -- another file in the place, or it removes the file. An inode is used once.
  pub data Step : World S → World S → Type 0 where
    scanning :
        (w : World S) (now : ℕ) (key : String)
        → Step w (record w { cache = (scan x now key (w.files key) w.cache).0 })
    clearing : (w : World S) → Step w (record w { cache = clear w.cache })
    appending :
        (w : World S) (key : String) (f : File) (more : List ℕ) (mtime ctime : ℕ)
        → w.files key ≡ some f
        → Step w (record w {
          files =
              set_file key
                (some (record f { bytes = f.bytes ++ more; mtime = mtime; ctime = ctime }))
                w.files;
        })
    cutting :
        (w : World S) (key : String) (f : File) (kept torn : List ℕ) (mtime ctime : ℕ)
        → w.files key ≡ some f
        → f.bytes ≡ kept ++ torn
        → IsLine torn
        → Step w (record w {
          files =
              set_file key (some (record f { bytes = kept; mtime = mtime; ctime = ctime })) w.files;
        })
    replacing :
        (w : World S) (key : String) (f : File)
        → f.ino ≡ w.fresh
        → Step w (record w { files = set_file key (some f) w.files; fresh = suc w.fresh })
    removing :
        (w : World S) (key : String) → Step w (record w { files = set_file key none w.files })

  pub data Run : World S → World S → Type 0 where
    stay : (w : World S) → Run w w
    step : {u v w : World S} → Run u v → Step v w → Run u w
