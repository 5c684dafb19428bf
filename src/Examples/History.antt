-- ===== src/Examples/History.antt =====
-- Recorded interactions.
use a2a_gateway_mcp.Prelude.Int.{pos}
use a2a_gateway_mcp.Prelude.{
  Bool, true, Option, ◌≡◌, refl, false, none, some, List, [], ◌∷◌, String, arith,
}
use a2a_gateway_mcp.History.Entries.{Entry, last_n}
use a2a_gateway_mcp.Prelude.{ap, ◌∙◌, inl}
use a2a_gateway_mcp.GoMap
use a2a_gateway_mcp.GoMap.{GoMap}
use a2a_gateway_mcp.Errors.{Error, errorf, ok}
use a2a_gateway_mcp.History.File
use a2a_gateway_mcp.History.File.{
  Files, FileBackend, Read, content, not_exist, gone, alias_path, entries_in, read_entries,
}
use a2a_gateway_mcp.History.File.Runs.{IsReliable}
use a2a_gateway_mcp.History.File.Runs
use a2a_gateway_mcp.History.File.Depth.{file-run}
use a2a_gateway_mcp.Validate.Aliases.{IsAliasText}
use a2a_gateway_mcp.History.Memory.{MemoryBackend, new_memory_backend, list}
use a2a_gateway_mcp.History.Memory.Depth.{Call, appends, deletes, run, recorded, list-run}

abbrev sent : String → Entry
sent message = record {
  timestamp = "2026-01-01T00:00:00Z";
  sent_message = message;
  response = "";
  context_id = "";
  task_id = "";
  is_error = false;
}

abbrev calls : List (String × Call)
calls =
    ("a", appends (sent "one"))
    ∷ (("a", appends (sent "two")) ∷ (("b", deletes) ∷ (("a", appends (sent "three")) ∷ [])))

list-run_example :
    (m : MemoryBackend) × (run calls (new_memory_backend (pos 2)) ≡ some m)
    × ((alias : String) → list alias m ≡ last_n 2 (recorded alias calls []))
list-run_example = list-run 1 calls

-- Files in a map, whose bytes are the entries themselves, and whether there is a directory for them,
-- without which nothing is written.
abbrev written_in :
    String → List Entry → Bool × GoMap (List Entry) → Option Error × (Bool × GoMap (List Entry))
written_in p es (true, files) = (none, (true, GoMap.insert p es files))
written_in p es (false, files) = (some (errorf "no such file or directory" []), (false, files))

abbrev map_files : Files
map_files = record {
  F = Bool × GoMap (List Entry);
  Bytes = List Entry;
  read_file = λ p s. elim (GoMap.lookup p s.1) [ none ↦ not_exist | some es ↦ content es ];
  write_file = written_in;
  remove = λ p s. (gone, (s.0, GoMap.delete p s.1));
  mkdir_all = λ p s. (none, (true, s.1));
  join = λ dir alias. alias;
  marshal = λ es. ok es;
  unmarshal = λ es. ok es;
}

abbrev backend : FileBackend
backend = record { dir = "/tmp"; depth = pos 2 }

abbrev read_of : Option (List Entry) → Read (List Entry)
read_of o = elim o [ none ↦ not_exist | some es ↦ content es ]

written :
    (p : String) (es : List Entry) (s : Bool × GoMap (List Entry))
    → s.0 ≡ true
    → written_in p es s ≡ (none, (true, GoMap.insert p es s.1))
written p es (true, files) e = refl
written p es (false, files) e = cc e

map_files-IsReliable : IsReliable map_files backend
unfolding alias_path
map_files-IsReliable = record {
  Works = λ s. Unit;
  HasDir = λ s. s.0 ≡ true;
  mkdir = λ s w. (refl, tt, refl);
  read-mkdir = λ a s va w. refl;
  marshals = λ es. (es, refl, refl);
  writes = λ a es s va w e. (ap (λ o. o.0) (written a es s e), tt);
  read-write = λ a b es s va vb w e.
      ap (λ o. read_of (GoMap.lookup b o.1.1)) (written a es s e)
      ∙ ap read_of (GoMap.lookup-insert a b es s.1)
      ∙ ground arith;
  removes = λ a s va w. (inl refl, tt);
  read-remove = λ a b s va vb w. ap read_of (GoMap.lookup-delete a b s.1) ∙ ground arith;
  paths = λ a b va vb e. e;
}

abbrev no_directory : Bool × GoMap (List Entry)
no_directory = (false, GoMap.empty)

no_files : (a : String) → IsAliasText a → read_entries map_files backend a no_directory ≡ ok []
unfolding read_entries
no_files a va = ap (λ o. entries_in map_files a (read_of o)) (GoMap.lookup-empty {V = List Entry} a)

a_alias : IsAliasText "a"
a_alias = (inl (omega arith, omega arith), tt)

b_alias : IsAliasText "b"
b_alias = (inl (omega arith, omega arith), tt)

file-run_example :
    (s : Bool × GoMap (List Entry)) × (Runs.run map_files backend calls no_directory ≡ some s)
    × (File.list map_files backend "a" s ≡ ok (last_n 2 (recorded "a" calls [])))
unfolding map_files-IsReliable
file-run_example =
    file-run map_files backend map_files-IsReliable 1 refl calls "a" no_directory
      (a_alias, (a_alias, (b_alias, (a_alias, tt)))) a_alias tt no_files
