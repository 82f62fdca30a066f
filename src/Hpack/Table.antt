-- ===== src/Hpack/Table.antt =====
-- The dynamic table of class HPack (Cutelyst/Server/hpack.h and hpack.cpp).
pub mod Laws
mod Tests
use cutelyst.Common.{ℕ, zero, suc, ◌+◌, ◌-◌, ltb, leb, if◌then◌else◌}
use cutelyst.Common.{Bytes, List, [], ◌∷◌, length}

pub record DynamicTableEntry : Type 0 where
  pub key : Bytes
  pub value : Bytes

-- `header.key.length() + header.value.length() + 32`
abbrev pub entry_size : DynamicTableEntry → ℕ
entry_size e = length e.key + length e.value + 32

-- The members of HPack, without their m_. The newest entry stands first.
pub record HPack : Type 0 where
  pub dynamic_table : List DynamicTableEntry
  pub dynamic_table_size : ℕ
  pub current_max_dynamic_table_size : ℕ
  pub max_table_size : ℕ

-- The constructor.
pub new_hpack : ℕ → HPack
new_hpack max_table_size = record {
  dynamic_table = [];
  dynamic_table_size = 0;
  current_max_dynamic_table_size = max_table_size;
  max_table_size = max_table_size;
}

-- `takeLast` of a list that starts with `e`: what stays, and the entry taken.
abbrev pub take_last :
    DynamicTableEntry → List DynamicTableEntry → List DynamicTableEntry × DynamicTableEntry
take_last e [] = ([], e)
take_last e (f ∷ t) = let (kept, last) = take_last f t in (e ∷ kept, last)

-- The two eviction loops, `while (extra + size > limit && !empty) takeLast()`: `extra` is 0 in a
-- table size update and the size of the new entry in an insertion. The fuel is the number of
-- entries, one of which goes in each round.
unfoldable pub evict : ℕ → ℕ → ℕ → List DynamicTableEntry → ℕ → List DynamicTableEntry × ℕ
evict zero extra limit table size = (table, size)
evict (suc fuel) extra limit [] size = ([], size)
evict (suc fuel) extra limit (e ∷ t) size =
    let (kept, last) = take_last e t in
    let more = evict fuel extra limit kept (size - entry_size last) in
    if ltb limit (extra + size) then more else (e ∷ t, size)

-- The table size update of HPack::decode, its guards passed.
pub update_size : ℕ → HPack → HPack
unfolding evict
update_size limit h =
    let (table, size) =
      evict (length h.dynamic_table) 0 limit h.dynamic_table h.dynamic_table_size in
    record h {
      dynamic_table = table;
      dynamic_table_size = size;
      current_max_dynamic_table_size = limit;
    }

-- The end of HPack::decode for a literal with incremental indexing: evict, then prepend if it fits.
unfoldable pub add_entry : DynamicTableEntry → HPack → HPack
unfolding evict
add_entry e h =
    let limit = h.current_max_dynamic_table_size in
    let (table, size) =
      evict (length h.dynamic_table) (entry_size e) limit h.dynamic_table h.dynamic_table_size in
    if leb (entry_size e + size) limit
    then record h { dynamic_table = e ∷ table; dynamic_table_size = size + entry_size e }
    else record h { dynamic_table = table; dynamic_table_size = size }
