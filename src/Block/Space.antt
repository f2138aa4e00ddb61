-- ===== src/Block/Space.antt =====
-- Where memory lands: the search for free pages and the tests of ranges (source/host/memblock.c).
use chimera_common_minibox.Base.{
  ℕ, zero, suc, ◌+◌, ◌-◌, ◌/◌, ◌%◌, Bool, true, false, not, ◌&&◌, ◌||◌, Option, none, some, ltb,
  leb, ◌==◌, if◌then◌else◌,
}
use chimera_common_minibox.Block.{Prot, Status, page_size, validate}
use chimera_common_minibox.Block.State.{MemBlock, group_pages, page_of}
use chimera_common_minibox.Block.Tracking.{is_free, status_tracked}

-- `validate` of a range in the block.
unfoldable pub pages_of : MemBlock → ℕ → ℕ → Option (ℕ × ℕ)
pages_of b start size = validate b.start b.size start size

unfoldable pub page_is_free : MemBlock → ℕ → Bool
page_is_free b i = is_free (page_of b i).status

-- Whether every page, or no page, of `count` pages from `i` is free.
unfoldable pub all_free : MemBlock → ℕ → ℕ → Bool
all_free b i zero = true
all_free b i (suc count) = page_is_free b i && all_free b (suc i) count

unfoldable pub none_free : MemBlock → ℕ → ℕ → Bool
none_free b i zero = true
none_free b i (suc count) = not (page_is_free b i) && none_free b (suc i) count

-- `mb_block_range_is_free`.
unfoldable pub range_is_free : MemBlock → ℕ → ℕ → Bool
range_is_free b start size = elim (pages_of b start size) [
  | none ↦ false
  | some (ps, pcount) ↦ all_free b ps pcount
]

abbrev pub can_read : Status → Bool
can_read Status.free = false
can_read (Status.mapped Prot.no_access) = false
can_read (Status.mapped _) = true

-- The body of `mb_block_host_can`'s loop.
unfoldable pub page_can : MemBlock → (write guest_asks : Bool) → ℕ → Bool
page_can b write guest_asks i =
    let s = (page_of b i).status in
    not (is_free s) && ((if write then status_tracked s else can_read s) || guest_asks)

unfoldable pub all_can : MemBlock → (write guest_asks : Bool) → ℕ → ℕ → Bool
all_can b write guest_asks i zero = true
all_can b write guest_asks i (suc count) =
    page_can b write guest_asks i && all_can b write guest_asks (suc i) count

-- `mb_block_host_can`.
unfoldable pub host_can : MemBlock → (addr len : ℕ) → (write guest_asks : Bool) → Bool
host_can b addr len write guest_asks =
    let first = (addr - b.start) / page_size in
    let last = (addr - b.start + len - 1) / page_size in
    if len == 0
    then true
    else if ltb addr b.start || leb b.size (addr - b.start) || ltb (b.size - (addr - b.start)) len
    then false
    else all_can b write guest_asks first (suc last - first)

-- A whole group of pages inside `[lo, hi)`.
unfoldable pub whole_group : ℕ → ℕ → ℕ → Bool
whole_group first lo hi = first % group_pages == 0 && leb lo first && leb (first + group_pages) hi

-- `group_taken`.
unfoldable pub group_taken : MemBlock → ℕ → ℕ → ℕ → Bool
group_taken b first lo hi = whole_group first lo hi && b.group_free (first / group_pages) == 0

-- `group_all_free`.
unfoldable pub group_all_free : MemBlock → ℕ → ℕ → ℕ → Bool
group_all_free b first lo hi =
    whole_group first lo hi && b.group_free (first / group_pages) == group_pages

unfoldable pub map_free : MemBlock → ℕ → Bool
map_free b i = is_free (b.rows i).status_map

-- The walk down for a big request. A round takes one page or more, so `i` rounds are enough.
unfoldable pub highest_loop : MemBlock → ℕ → (lo hi npages : ℕ) → (i run_end : ℕ) → Option ℕ
highest_loop b zero lo hi npages i run_end = none
highest_loop b (suc fuel) lo hi npages i run_end =
    let below = i - group_pages in
    let j = i - 1 in
    if leb i lo then none else elim (leb group_pages i && group_taken b below lo hi) [
      | true ↦ highest_loop b fuel lo hi npages below below
      | false ↦
          elim (leb group_pages i && ltb (run_end - below) npages && group_all_free b below lo hi) [
            | true ↦ highest_loop b fuel lo hi npages below run_end
            | false ↦ elim (map_free b j) [
              | false ↦ highest_loop b fuel lo hi npages j j
              | true ↦ elim (leb npages (run_end - j)) [
                | true ↦ some (run_end - npages)
                | false ↦ highest_loop b fuel lo hi npages j run_end
              ]
            ]
          ]
    ]

-- Where the run of free pages that goes on at page `j` ends. A round takes one page or more.
unfoldable pub free_end : MemBlock → ℕ → (lo hi : ℕ) → ℕ → ℕ
free_end b zero lo hi j = j
free_end b (suc fuel) lo hi j = elim (ltb j hi && map_free b j) [
  | false ↦ j
  | true ↦ free_end b fuel lo hi (if group_all_free b j lo hi then j + group_pages else suc j)
]

-- The best fit so far, and no run yet.
abbrev pub better : ℕ → (i len : ℕ) → Option (ℕ × ℕ) → Option (ℕ × ℕ)
better npages i len none = if leb npages len then some (i, len) else none
better npages i len (some (at, best)) =
    if leb npages len && ltb len best then some (i, len) else some (at, best)

-- The walk up for any other request. A round takes one page or more, so `hi` rounds are enough.
unfoldable pub best_loop : MemBlock → ℕ → (lo hi npages : ℕ) → ℕ → Option (ℕ × ℕ) → Option (ℕ × ℕ)
best_loop b zero lo hi npages i best = best
best_loop b (suc fuel) lo hi npages i best = elim (ltb i hi) [
  | false ↦ best
  | true ↦ elim (map_free b i) [
    | true ↦
        let j = free_end b hi lo hi i in
        best_loop b fuel lo hi npages j (better npages i (j - i) best)
    | false ↦
        best_loop b fuel lo hi npages (if group_taken b i lo hi then i + group_pages else suc i)
          best
  ]
]

-- `find_free_pages`.
unfoldable pub find_free_pages : MemBlock → (lo count npages : ℕ) → Option ℕ
find_free_pages b lo count npages =
    let hi = lo + count in
    if leb 4096 npages
    then highest_loop b hi lo hi npages hi hi
    else elim (best_loop b hi lo hi npages lo none) [ none ↦ none | some (at, len) ↦ some at ]
