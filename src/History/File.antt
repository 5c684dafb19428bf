-- ===== src/History/File.antt =====
-- history/history_file.go: the backend that keeps a file for each agent. Packages os, path/filepath and
-- encoding/json are a parameter: a file system F and what the code calls on it. The lock of an alias
-- makes each call on it one step. The outer `none` is the run-time panic of a slice expression.
pub mod Runs
pub mod Depth
use a2a_gateway_mcp.Prelude.{
  ℕ, zero, suc, ◌+◌, ◌-◌, ◌≡◌, Bool, true, false, Option, none, some, List, [], ◌∷◌, ◌++◌, String,
  ◌==◌, if◌then◌else◌, length, drop,
}
use a2a_gateway_mcp.Prelude.Int.{ℤ, pos, negsuc, reaches, is_le_zero}
use a2a_gateway_mcp.Errors.{Error, Result, ok, err, errorf, wrapf, number, text}
use a2a_gateway_mcp.History.Entries.{Entry}

-- What os.ReadFile and os.Remove come to; fs.ErrNotExist is told apart.
pub data Read (B : Type 0) : Type 0 where
  content : B → Read B
  not_exist : Read B
  read_error : Error → Read B

pub data Removed : Type 0 where
  gone already_gone : Removed
  remove_error : Error → Removed

pub record Files : Type 1 where
  pub F : Type 0
  -- []byte
  pub Bytes : Type 0
  pub read_file : String → F → Read Bytes
  pub write_file : String → Bytes → F → Option Error × F
  pub remove : String → F → Removed × F
  pub mkdir_all : String → F → Option Error × F
  -- filepath.Join(dir, alias+".json")
  pub join : String → String → String
  pub marshal : List Entry → Result Bytes
  pub unmarshal : Bytes → Result (List Entry)

pub record FileBackend : Type 0 where
  pub dir : String
  pub depth : ℤ

unfoldable pub new_file_backend : String → ℤ → Result FileBackend
new_file_backend dir depth =
    if is_le_zero depth
    then err (errorf "file backend depth must be at least 1, got %d" (number depth ∷ []))
    else ok (record { dir = dir; depth = depth })

-- entries[len(entries)-depth+1:]
abbrev pub make_room : ℤ → List Entry → Option (List Entry)
make_room (pos zero) es = none
make_room (pos (suc d)) es = some (drop (length es - suc d + 1) es)
make_room (negsuc n) es = none

module _ (X : Files) where
  open X use {F, Bytes, read_file, write_file, remove, mkdir_all, join, marshal, unmarshal}

  unfoldable pub alias_path : FileBackend → String → String
  alias_path f alias = join f.dir alias

  abbrev pub parsed : String → Result (List Entry) → Result (List Entry)
  parsed alias (ok es) = ok es
  parsed alias (err e) = err (wrapf "unmarshaling history for %q: %w" (text alias ∷ []) e)

  abbrev pub entries_in : String → Read Bytes → Result (List Entry)
  entries_in alias not_exist = ok []
  entries_in alias (read_error e) =
      err (wrapf "reading history file for %q: %w" (text alias ∷ []) e)
  entries_in alias (content data_read) = parsed alias (unmarshal data_read)

  unfoldable pub read_entries : FileBackend → String → F → Result (List Entry)
  unfolding alias_path
  read_entries f alias s = entries_in alias (read_file (alias_path f alias) s)

  abbrev written : String → Option Error × F → Option Error × F
  written alias (none, s) = (none, s)
  written alias (some e, s) =
      (some (wrapf "writing history file for %q: %w" (text alias ∷ []) e), s)

  abbrev write_data : FileBackend → String → Result Bytes → F → Option Error × F
  write_data f alias (err e) s =
      (some (wrapf "marshaling history for %q: %w" (text alias ∷ []) e), s)
  write_data f alias (ok document) s = written alias (write_file (alias_path f alias) document s)

  abbrev write_in : FileBackend → String → List Entry → Option Error × F → Option Error × F
  write_in f alias es (some e, s) = (some (wrapf "creating history directory: %w" [] e), s)
  write_in f alias es (none, s) = write_data f alias (marshal es) s

  unfoldable pub write_entries : FileBackend → String → List Entry → F → Option Error × F
  unfolding alias_path
  write_entries f alias es s = write_in f alias es (mkdir_all f.dir s)

  abbrev append_to :
      FileBackend → String → Entry → Option (List Entry) → F → Option (Option Error × F)
  append_to f alias entry none s = none
  append_to f alias entry (some es) s = some (write_entries f alias (es ++ entry ∷ []) s)

  abbrev append_read :
      FileBackend → String → Entry → Result (List Entry) → F → Option (Option Error × F)
  append_read f alias entry (err e) s = some (some e, s)
  append_read f alias entry (ok es) s =
      append_to f alias entry
        (if reaches (length es) f.depth then make_room f.depth es else some es) s

  unfoldable pub append : FileBackend → String → Entry → F → Option (Option Error × F)
  unfolding read_entries write_entries
  append f alias entry s = append_read f alias entry (read_entries f alias s) s

  unfoldable pub list : FileBackend → String → F → Result (List Entry)
  unfolding read_entries
  list f alias s = read_entries f alias s

  abbrev removed : String → String → Removed × F → Option Error × F
  removed format alias (gone, s) = (none, s)
  removed format alias (already_gone, s) = (none, s)
  removed format alias (remove_error e, s) = (some (wrapf format (text alias ∷ []) e), s)

  unfoldable pub delete : FileBackend → String → F → Option Error × F
  unfolding alias_path
  delete f alias s =
      removed "deleting history file for %q: %w" alias (remove (alias_path f alias) s)

  unfoldable pub clear : FileBackend → String → F → Option Error × F
  unfolding alias_path
  clear f alias s = removed "clearing history file for %q: %w" alias (remove (alias_path f alias) s)
