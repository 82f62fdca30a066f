-- ===== src/Hpack/Table/Laws.antt =====
-- The dynamic table's invariant, and what eviction keeps.
use cutelyst.Common.{Bool-cases, ltb, sym, ◌∙◌}
use cutelyst.Common.{ℕ, zero, suc, ◌+◌, ◌-◌, ◌≤◌, ◌<◌, ◌≡◌, refl, ap, arith, ◌⊎◌, inl, inr}
use cutelyst.Common.{List, [], ◌∷◌, ◌++◌, length, append_assoc, append-nil}
use cutelyst.Hpack.Table.{
  DynamicTableEntry, entry_size, HPack, new_hpack, take_last, evict, update_size, add_entry,
}

-- The size of a table as RFC 7541 section 4.1 counts it.
abbrev total : List DynamicTableEntry → ℕ
total [] = 0
total (e ∷ t) = entry_size e + total t

-- The counter is the size of the entries, and never exceeds the limit in force, which never
-- exceeds the limit that the connection settled on.
pub record IsValid (h : HPack) : Type 0 where
  pub counted : h.dynamic_table_size ≡ total h.dynamic_table
  pub within : h.dynamic_table_size ≤ h.current_max_dynamic_table_size
  pub limited : h.current_max_dynamic_table_size ≤ h.max_table_size

total-take_last :
    (e : DynamicTableEntry) (t : List DynamicTableEntry)
    → total (e ∷ t) ≡ total (take_last e t).0 + entry_size (take_last e t).1
total-take_last e [] = omega arith
total-take_last e (f ∷ t) = omega (arith, total-take_last f t)

length-take_last :
    (e : DynamicTableEntry) (t : List DynamicTableEntry) → length (take_last e t).0 ≡ length t
length-take_last e [] = refl
length-take_last e (f ∷ t) = ap suc (length-take_last f t)

take_last_append :
    (e : DynamicTableEntry) (t : List DynamicTableEntry)
    → e ∷ t ≡ (take_last e t).0 ++ ((take_last e t).1 ∷ [])
take_last_append e [] = refl
take_last_append e (f ∷ t) = ap (λ r. e ∷ r) (take_last_append f t)

-- With one more entry kept, the rest would not have fitted.
abbrev Needed : ℕ → ℕ → List DynamicTableEntry → List DynamicTableEntry → Type 0
Needed extra limit after [] = Unit
Needed extra limit after (r ∷ removed) = limit < extra + total (after ++ (r ∷ []))

-- What the eviction of RFC 7541 section 4.4 leaves: the newest entries, as many as fit beside
-- `extra`, with the counter still exact.
pub record Evicted (extra limit : ℕ) (before after : List DynamicTableEntry) (size : ℕ)
    : Type 0 where
  pub counted : size ≡ total after
  pub removed : List DynamicTableEntry
  pub newest : before ≡ after ++ removed
  pub fits : (after ≡ []) ⊎ (extra + size ≤ limit)
  pub needed : Needed extra limit after removed

module _ (extra limit : ℕ) where
  -- One more entry, the oldest, joins those removed.
  Needed-snoc :
      (after removed : List DynamicTableEntry) (last : DynamicTableEntry)
      → Needed extra limit after removed
      → limit < extra + total ((after ++ removed) ++ (last ∷ []))
      → Needed extra limit after (removed ++ (last ∷ []))
  Needed-snoc after [] last h k = rw append-nil at k
  Needed-snoc after (r ∷ removed) last h k = h

  evict-Evicted :
      (fuel : ℕ) (table : List DynamicTableEntry) (size : ℕ)
      → length table ≤ fuel
      → size ≡ total table
      → Evicted extra limit table
          (evict fuel extra limit table size).0
          (evict fuel extra limit table size).1
  unfolding evict
  evict-Evicted zero [] size h e = record {
    counted = e;
    removed = [];
    newest = refl;
    fits = inl refl;
    needed = tt;
  }
  evict-Evicted zero (x ∷ t) size h e = absurd (omega arith)
  evict-Evicted (suc fuel) [] size h e = record {
    counted = e;
    removed = [];
    newest = refl;
    fits = inl refl;
    needed = tt;
  }
  evict-Evicted (suc fuel) (x ∷ t) size h e = elim (Bool-cases (ltb limit (extra + size))) [
    | inl full ↦ rw full (
        let ev =
          evict-Evicted fuel (take_last x t).0 (size - entry_size (take_last x t).1)
            (omega (arith, length-take_last x t)) (omega (arith, total-take_last x t)) in
        let kept =
          (evict fuel extra limit (take_last x t).0 (size - entry_size (take_last x t).1)).0 in
        let split = take_last_append x t ∙ ap (λ k. k ++ ((take_last x t).1 ∷ [])) ev.newest in
        record {
          counted = ev.counted;
          removed = ev.removed ++ ((take_last x t).1 ∷ []);
          newest = split ∙ append_assoc kept ev.removed ((take_last x t).1 ∷ []);
          fits = ev.fits;
          needed =
              Needed-snoc kept ev.removed (take_last x t).1 ev.needed (rw (← split) (ground arith));
        })
    | inr room ↦ rw room (record {
      counted = e;
      removed = [];
      newest = sym (append-nil _);
      fits = inr (ground arith);
      needed = tt;
    })
  ]

evicted :
    (extra limit : ℕ) (h : HPack)
    → IsValid h
    → Evicted extra limit h.dynamic_table
        (evict (length h.dynamic_table) extra limit h.dynamic_table h.dynamic_table_size).0
        (evict (length h.dynamic_table) extra limit h.dynamic_table h.dynamic_table_size).1
evicted extra limit h v =
    evict-Evicted extra limit (length h.dynamic_table) h.dynamic_table h.dynamic_table_size
      (omega arith) v.counted

size_in_limit :
    (extra limit : ℕ) {before after : List DynamicTableEntry} {size : ℕ}
    → Evicted extra limit before after size
    → size ≤ limit
size_in_limit extra limit ev = elim ev.fits [
  | inl e ↦ omega (arith, ev.counted, ap total e)
  | inr r ↦ omega arith
]

-- The table of a new connection is empty.
pub new_hpack-IsValid : (max_table_size : ℕ) → IsValid (new_hpack max_table_size)
unfolding new_hpack
new_hpack-IsValid max_table_size = record {
  counted = refl;
  within = omega arith;
  limited = omega arith;
}

-- A size update to a limit that the guards let pass keeps the invariant.
pub update_size-IsValid :
    (limit : ℕ) (h : HPack) → limit ≤ h.max_table_size → IsValid h → IsValid (update_size limit h)
unfolding update_size
update_size-IsValid limit h l v =
    let ev = evicted 0 limit h v in
    record { counted = ev.counted; within = size_in_limit 0 limit ev; limited = l }

-- Of a valid table, a size update to any limit keeps the newest entries, as many as fit the limit,
-- with the counter exact, and sets the limit.
update_size-Evicted :
    (limit : ℕ) (h : HPack)
    → IsValid h
    → Evicted 0 limit h.dynamic_table
        (update_size limit h).dynamic_table
        (update_size limit h).dynamic_table_size
      × ((update_size limit h).current_max_dynamic_table_size ≡ limit)
unfolding update_size
update_size-Evicted limit h v = (evicted 0 limit h v, refl)

-- An insertion keeps the invariant.
pub add_entry-IsValid : (e : DynamicTableEntry) (h : HPack) → IsValid h → IsValid (add_entry e h)
unfolding add_entry
add_entry-IsValid e h v =
    let limit = h.current_max_dynamic_table_size in
    let ev = evicted (entry_size e) limit h v in
    ground (arith, ev.counted, size_in_limit (entry_size e) limit ev)

-- What RFC 7541 section 4.4 asks of an insertion: the table is the new entry and the newest of the
-- old ones, as many as fit beside it; an entry above the limit empties the table.
pub record Inserted (e : DynamicTableEntry) (h after : HPack) : Type 0 where
  pub kept : List DynamicTableEntry
  pub size : ℕ
  pub eviction : Evicted (entry_size e) h.current_max_dynamic_table_size h.dynamic_table kept size
  pub fitting : entry_size e ≤ h.current_max_dynamic_table_size → after.dynamic_table ≡ e ∷ kept
  pub oversized : h.current_max_dynamic_table_size < entry_size e → after.dynamic_table ≡ []

-- An insertion into a valid table keeps the newest of the old entries, as many as fit beside the
-- new one, behind it; an entry above the limit in force leaves the table empty.
pub add_entry-Inserted :
    (e : DynamicTableEntry) (h : HPack) → IsValid h → Inserted e h (add_entry e h)
unfolding add_entry
add_entry-Inserted e h v =
    let limit = h.current_max_dynamic_table_size in
    let ev = evicted (entry_size e) limit h v in
    record {
      kept =
          (evict (length h.dynamic_table) (entry_size e) limit h.dynamic_table
            h.dynamic_table_size).0;
      size =
          (evict (length h.dynamic_table) (entry_size e) limit h.dynamic_table
            h.dynamic_table_size).1;
      eviction = ev;
      fitting = λ le. ground (arith, ev.counted, ev.fits);
      oversized = λ lt. ground (arith, ev.counted, ev.fits);
    }
