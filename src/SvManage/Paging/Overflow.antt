-- ===== src/SvManage/Paging/Overflow.antt =====
-- Where the offset of the next page wraps around, a request ends the thread of the server.
use mind_craft.Base.{ℕ, ◌+◌, ◌*◌, ◌^◌, ◌≤◌, ◌<◌, ◌≡◌, List, panic, length, arith}
use mind_craft.SvManage.Paging.{page_of}

-- If the page size p is at least 2^63 and below 2^64, the second page panics for every listing that has
-- at most p mods and more than 2p - 2^64: the end of the page wraps around to a number within the listing.
pub page_of-panics :
    {A : Type 0} (per_page : ℕ) (all : List A)
    → 2 ^ 63 ≤ per_page
    → per_page < 2 ^ 64
    → length all ≤ per_page
    → 2 * per_page < 2 ^ 64 + length all
    → page_of per_page 1 all ≡ panic
unfolding page_of
page_of-panics per_page all big word short wraps = ground arith
