-- ===== src/SvManage/Paging.antt =====
-- sv_manage/src/server_loop.rs: `list_mods_paged`. `usize` has 64 bits, and a product or sum past
-- that wraps, as in a build without overflow checks.
pub mod Pages
pub mod Overflow
use mind_craft.Base.{
  ℕ, ◌+◌, ◌-◌, ◌*◌, ◌%◌, ◌^◌, Text, Bool, true, false, List, [], ◌∷◌, Result, ok, err, panic,
  diverge, drop, take, length, ltb, ◌==◌, if◌then◌else◌,
}
use mind_craft.SvManage.Runner.{slice}

abbrev pub usize : ℕ → ℕ
usize n = n % 2 ^ 64

abbrev pub clamp : ℕ → ℕ → ℕ
clamp n len = if ltb len n then len else n

finish_page : {A : Type 0} → ℕ → ℕ → ℕ → Result (List A) → Result (List A × Bool)
finish_page per_page from to (ok part) = ok (part, ltb (to - from) per_page)
finish_page per_page from to (err e) = err e
finish_page per_page from to panic = panic
finish_page per_page from to diverge = diverge

-- The part of the listing for one page, and whether it is the last; a page size of 0 is all.
unfoldable pub page_of : {A : Type 0} → ℕ → ℕ → List A → Result (List A × Bool)
unfolding slice finish_page
page_of per_page page all =
    if per_page == 0
    then ok (all, true)
    else (let offset = usize (per_page * page) in
        let end' = usize (offset + per_page) in
        let from = clamp offset (length all) in
        let to = clamp end' (length all) in
        finish_page per_page from to (if from == to then ok [] else slice all from to))
