-- ===== src/Syncer/Os.antt =====
-- The operating system as the daemon calls it: a parameter, over the states of a disk and the open
-- files. Every call may fail.
use rclaude.Prelude.{ℕ, Bool, true, false, Option, List, [], ◌∷◌, ◌++◌, Text, Result}
use rclaude.Prelude.Int.{ℤ}

-- The errors that the code tells apart; `io_other` stands for all else.
pub data IoError : Type 0 where
  not_exist : IoError
  io_other : ℕ → IoError

pub data FileKind : Type 0 where
  regular directory symlink special : FileKind

-- fs.FileInfo
pub record FileStat : Type 0 where
  pub size : ℤ
  pub mod_time : ℤ
  pub kind : FileKind
  pub perm : ℕ

-- Mode()&os.ModeSymlink != 0
abbrev pub is_symlink : FileStat → Bool
is_symlink s = elim s.kind [ symlink ↦ true | _ ↦ false ]

-- IsDir()
abbrev pub is_directory : FileStat → Bool
is_directory s = elim s.kind [ directory ↦ true | _ ↦ false ]

-- fs.DirEntry: its name, whether it is a directory, and what Info() answers
pub record DirEntry : Type 0 where
  pub name : Text
  pub is_dir : Bool
  pub info : Result IoError FileStat

-- A call of the function that filepath.WalkDir takes.
pub record Visit : Type 0 where
  pub path : Text
  pub entry : DirEntry
  pub failed : Option IoError

-- What filepath.WalkDir finds: a visit, and the visits inside a directory, which are left out when
-- the function answers SkipDir for it.
mutual
  pub data Walk : Type 0 where
    visited : Visit → Walks → Walk

  pub data Walks : Type 0 where
    no_more : Walks
    more : Walk → Walks → Walks

pub data OpenMode : Type 0 where
  -- O_WRONLY|O_APPEND|O_CREATE and O_RDWR|O_CREATE
  append_create write_create : OpenMode

pub record Os (Disk File : Type 0) : Type 0 where
  pub lstat : Text → Disk → Result IoError FileStat
  pub stat : Text → Disk → Result IoError FileStat
  pub read_link : Text → Disk → Result IoError Text
  pub eval_symlinks : Text → Disk → Result IoError Text
  pub read_file : Text → Disk → Result IoError (List ℕ)
  pub read_dir : Text → Disk → Result IoError (List DirEntry)
  pub walk_dir : Text → Disk → Walk
  pub open_file : Text → OpenMode → ℕ → Disk → Disk × Result IoError File
  pub write : File → List ℕ → Disk → Disk × Option IoError
  pub write_at : File → List ℕ → ℤ → Disk → Disk × Option IoError
  pub close : File → Disk → Disk × Option IoError
  pub mkdir : Text → ℕ → Disk → Disk × Option IoError
  pub mkdir_all : Text → ℕ → Disk → Disk × Option IoError
  pub remove : Text → Disk → Disk × Option IoError
  pub rename_file : Text → Text → Disk → Disk × Option IoError
  pub truncate : Text → ℤ → Disk → Disk × Option IoError

-- The visits of a walk whose function never answers SkipDir.
abbrev mutual
  pub all_visits : Walk → List Visit
  all_visits (visited visit inside) = visit ∷ inner_visits inside

  pub inner_visits : Walks → List Visit
  inner_visits no_more = []
  inner_visits (more walk walks) = all_visits walk ++ inner_visits walks
