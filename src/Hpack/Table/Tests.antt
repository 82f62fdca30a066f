-- ===== src/Hpack/Table/Tests.antt =====
-- The dynamic table of Cutelyst/Server/hpack.cpp, full, then updated and extended.
use cutelyst.Common.{◌≡◌, refl, [], ◌∷◌, codes, arith}
use cutelyst.Hpack.Table.{DynamicTableEntry, HPack, add_entry}
use cutelyst.Hpack.Table.Laws.{IsValid, Inserted, add_entry-Inserted}

abbrev small_entry : DynamicTableEntry
small_entry = record { key = codes "a"; value = codes "b" }

-- Two entries of 34 bytes under a limit of 80.
abbrev two_entries : HPack
two_entries = record {
  dynamic_table = small_entry ∷ small_entry ∷ [];
  dynamic_table_size = 68;
  current_max_dynamic_table_size = 80;
  max_table_size = 128;
}

two_entries-IsValid : IsValid two_entries
two_entries-IsValid = record { counted = refl; within = omega arith; limited = omega arith }

-- A third entry evicts the oldest.
add_third : add_entry small_entry two_entries ≡ record two_entries { dynamic_table_size = 68 }
unfolding add_entry
add_third = refl

add_entry-Inserted_example : Inserted small_entry two_entries (add_entry small_entry two_entries)
add_entry-Inserted_example = add_entry-Inserted small_entry two_entries two_entries-IsValid
