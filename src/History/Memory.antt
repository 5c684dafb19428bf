-- ===== src/History/Memory.antt =====
-- history/history_memory.go: the in-memory backend. The context argument is not used there, and no
-- method returns an error. `none` is the run-time panic of the slice expression `entries[1:]` on an
-- empty slice.
pub mod Depth
use a2a_gateway_mcp.Prelude.{
  ℕ, suc, Option, none, some, List, [], ◌∷◌, ◌++◌, String, if◌then◌else◌, length,
}
use a2a_gateway_mcp.Prelude.Int.{ℤ, reaches}
use a2a_gateway_mcp.GoMap
use a2a_gateway_mcp.GoMap.{GoMap}
use a2a_gateway_mcp.History.Entries.{Entry}

pub record MemoryBackend : Type 0 where
  pub entries : GoMap (List Entry)
  pub depth : ℤ

unfoldable pub new_memory_backend : ℤ → MemoryBackend
new_memory_backend depth = record { entries = GoMap.empty; depth = depth }

-- m.entries[alias]: nil for a missing key
abbrev pub or_nil : Option (List Entry) → List Entry
or_nil none = []
or_nil (some es) = es

-- entries[1:]
abbrev pub tail : List Entry → Option (List Entry)
tail [] = none
tail (e ∷ es) = some es

abbrev store_under : String → Entry → MemoryBackend → Option (List Entry) → Option MemoryBackend
store_under alias entry m none = none
store_under alias entry m (some es) =
    some (record m { entries = GoMap.insert alias (es ++ entry ∷ []) m.entries })

unfoldable pub append : String → Entry → MemoryBackend → Option MemoryBackend
append alias entry m =
    let entries = or_nil (GoMap.lookup alias m.entries) in
    store_under alias entry m
      (if reaches (length entries) m.depth then tail entries else some entries)

unfoldable pub list : String → MemoryBackend → List Entry
list alias m = or_nil (GoMap.lookup alias m.entries)

unfoldable pub delete : String → MemoryBackend → MemoryBackend
delete alias m = record m { entries = GoMap.delete alias m.entries }

unfoldable pub clear : String → MemoryBackend → MemoryBackend
clear alias m = record m { entries = GoMap.delete alias m.entries }
