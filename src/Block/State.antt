-- ===== src/Block/State.antt =====
-- The state of a memory block (`mb_block` of source/host/minibox_internal.h) and the pool of page copies
-- (source/host/memblock.c).
use chimera_common_minibox.Base.{
  ℕ, zero, suc, ◌+◌, ◌-◌, ◌*◌, Bool, true, false, List, ltb, leb, ◌==◌, if◌then◌else◌, replicate,
}
use chimera_common_minibox.Base.Arrays.{update}
use chimera_common_minibox.Block.{Prot, Status, Page, page_size}

-- `MB_GROUP_PAGES`.
abbrev pub group_pages : ℕ
group_pages = 512

unfoldable pub zero_page : List ℕ
zero_page = replicate page_size 0

-- What the block keeps for one page: the element that each of its arrays has under the page's index (a bitmap's
-- element is its bit), the page's bytes, and the protection the operating system was last asked for.
pub record Row : Type 0 where
  pub page : Page
  pub bytes : List ℕ
  pub status_map : Status
  pub dirty_map : Bool
  pub epoch_bit : Bool
  pub stat_bit : Bool
  pub unheld_bit : Bool
  pub hot_bit : Bool
  pub epoch_status : Status
  pub view : Prot

-- The free list of page copies, by its counts: the slots in it, those that its index has room for and those ever
-- mapped. `grants k` is the operating system's answer to the `k`-th mapping asked for, and `asks` counts them.
pub record Pool : Type 0 where
  pub free_count : ℕ
  pub free_cap : ℕ
  pub mapped : ℕ
  pub asks : ℕ
  pub grants : ℕ → Bool

-- `plan_dest` is the page data behind the header of the buffer that a planned state goes to, a page to a slot.
pub record MemBlock : Type 0 where
  pub start : ℕ
  pub size : ℕ
  pub npages : ℕ
  pub rows : ℕ → Row
  pub group_free : ℕ → ℕ
  pub is_sealed : Bool
  pub swapped_in : Bool
  pub hash : List ℕ
  pub epoch_active : Bool
  pub nhot : ℕ
  pub epoch_no : ℕ
  pub epoch_ndirty : ℕ
  pub epoch_nstat : ℕ
  pub plan_active : Bool
  pub plan_dest : ℕ → List ℕ
  pub plan_count : ℕ
  pub plan_list : List ℕ
  pub load_touched : Bool
  pub pool : Pool

unfoldable pub page_of : MemBlock → ℕ → Page
page_of b i = (b.rows i).page

unfoldable pub set_row : MemBlock → ℕ → Row → MemBlock
set_row b i r = record b { rows = update b.rows i r }

-- `for (i = start; i < start + count; i++)`.
unfoldable pub for_pages {ℓ} : {A : Type ℓ} → (A → ℕ → A) → ℕ → ℕ → A → A
for_pages f start zero b = b
for_pages f start (suc count) b = for_pages f (suc start) count (f b start)

unfoldable pub doubled : ℕ → ℕ → ℕ → ℕ
doubled zero want need = want
doubled (suc fuel) want need = if ltb want need then doubled fuel (want * 2) need else want

-- `snap_index_room`.
unfoldable pub snap_index_room : Pool → ℕ → Pool × Bool
snap_index_room pool need =
    if leb need pool.free_cap
    then (pool, true)
    else (let want = doubled need (if pool.free_cap == 0 then 1024 else pool.free_cap * 2) need in
        let asked = record pool { asks = suc pool.asks } in
        if pool.grants pool.asks then (record asked { free_cap = want }, true) else (asked, false))

unfoldable pub add_chunk : Pool → Pool × Bool
add_chunk pool =
    let asked = record pool { asks = suc pool.asks } in
    if pool.grants pool.asks
    then (record asked { free_count = pool.free_count + 512; mapped = pool.mapped + 512 }, true)
    else (asked, false)

-- The pool is out of slots: a chunk of 512 is mapped, with room in the index for all.
unfoldable pub refill : Pool → Pool × Bool
refill pool =
    let (roomy, has_room) = snap_index_room pool (pool.mapped + 512) in
    if has_room then add_chunk roomy else (roomy, false)

-- `mb_snap_alloc`: whether a slot was had.
unfoldable pub snap_alloc : Pool → Pool × Bool
snap_alloc pool =
    let (filled, has_slot) = if pool.free_count == 0 then refill pool else (pool, true) in
    if has_slot
    then (record filled { free_count = filled.free_count - 1 }, true)
    else (filled, false)

-- `mb_snap_release` of a slot.
unfoldable pub snap_release : Pool → Pool
snap_release pool =
    if ltb pool.free_count pool.free_cap
    then record pool { free_count = suc pool.free_count }
    else (let (roomy, has_room) = snap_index_room pool (suc pool.free_count) in
        if has_room then record roomy { free_count = suc roomy.free_count } else roomy)
