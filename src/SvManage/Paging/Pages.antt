-- ===== src/SvManage/Paging/Pages.antt =====
-- Where nothing overflows, the pages cut the listing into consecutive parts.
use mind_craft.Base.{
  ℕ, zero, suc, ◌+◌, ◌-◌, ◌*◌, ◌^◌, ◌≤◌, ◌<◌, ◌≡◌, refl, ap, ◌∙◌, Bool, List, [], ◌∷◌, ◌++◌, Result,
  ok, drop, take, length, length-drop, ltb, if◌then◌else◌, arith, ◌>>=◌, Bool-cases, inl, inr,
  take-append-drop,
}
use native.Mathlib.Nat.{zero-add, suc-add}
use mind_craft.SvManage.Paging.{page_of}

-- The part and the flag that a page should have.
abbrev pub page_spec : {A : Type 0} → ℕ → ℕ → List A → List A × Bool
page_spec per_page page all =
    (take per_page (drop (per_page * page) all), ltb (length all) (per_page * page + per_page))

take-nil {ℓ} : {A : Type ℓ} (n : ℕ) → take {A = A} n [] ≡ []
take-nil zero = refl
take-nil (suc n) = refl

drop-all {ℓ} : {A : Type ℓ} (n : ℕ) (xs : List A) → length xs ≤ n → drop n xs ≡ []
drop-all zero [] h = refl
drop-all zero (x ∷ xs) h = absurd (omega arith)
drop-all (suc n) [] h = refl
drop-all (suc n) (x ∷ xs) h = drop-all n xs (omega arith)

take-all {ℓ} : {A : Type ℓ} (n : ℕ) (xs : List A) → length xs ≤ n → take n xs ≡ xs
take-all zero [] h = refl
take-all zero (x ∷ xs) h = absurd (omega arith)
take-all (suc n) [] h = refl
take-all (suc n) (x ∷ xs) h = ap (λ l. x ∷ l) (take-all n xs (omega arith))

-- If the page size is not 0 and the end of the page is below 2^64, the page is the part of the listing
-- from that many pages on, and is the last if and only if the listing ends before it.
pub page_of-page_spec :
    {A : Type 0} (per_page page : ℕ) (all : List A)
    → 0 < per_page
    → per_page * page + per_page < 2 ^ 64
    → page_of per_page page all ≡ ok (page_spec per_page page all)
unfolding page_of
page_of-page_spec per_page page all pos fits = ground (
  arith,
  drop-all (per_page * page) all,
  take-all per_page (drop (per_page * page) all),
  take-all (length all - per_page * page) (drop (per_page * page) all),
  length-drop {0} (per_page * page) all,
)

take-append-drop_at {ℓ} :
    {A : Type ℓ} (n m : ℕ) (xs : List A) → take n (drop m xs) ++ drop (m + n) xs ≡ drop m xs
take-append-drop_at n zero xs = rw zero-add (take-append-drop n xs)
take-append-drop_at {A = A} n (suc m) [] = rw (take-nil {A = A} n) (rw suc-add)
take-append-drop_at n (suc m) (x ∷ xs) = rw suc-add (take-append-drop_at n m xs)

-- What a reader collects who asks for page after page until one is the last.
pub fetch : {A : Type 0} → ℕ → ℕ → ℕ → List A → Result (List A)
fetch zero per_page page all = ok []
fetch (suc fuel) per_page page all = do
  (part, finish) ← page_of per_page page all
  let rest = fetch fuel per_page (page + 1) all
  if finish then ok part else (do more ← rest; ok (part ++ more))

times_zero : (n : ℕ) → n * 0 ≡ 0
times_zero n = omega arith

next_offset : (n page : ℕ) → n * (page + 1) ≡ n * page + n
next_offset n page = omega arith

fetch-rest :
    {A : Type 0} (fuel per_page page : ℕ) (all : List A)
    → 0 < per_page
    → length all + per_page < 2 ^ 64
    → per_page * page ≤ length all
    → length all < per_page * page + fuel
    → fetch fuel per_page page all ≡ ok (drop (per_page * page) all)
unfolding fetch
fetch-rest zero per_page page all pos fits inside enough = absurd (omega arith)
fetch-rest (suc fuel) per_page page all pos fits inside enough =
    rw (page_of-page_spec per_page page all pos (omega arith))
      (elim (Bool-cases (ltb (length all) (per_page * page + per_page))) [
        | inl last ↦ rw last (
            ap ok (
              take-all per_page (drop (per_page * page) all)
                (ground (arith, length-drop {0} (per_page * page) all))))
        | inr more ↦ rw more (
            rw
              (
                fetch-rest fuel per_page (page + 1) all pos fits (ground arith) (ground arith),
                next_offset per_page page,
              )
              (ap ok (take-append-drop_at per_page (per_page * page) all)))
      ])

-- A reader who asks for the pages in turn, until one says that it is the last, has every mod exactly
-- once and in order, in at most one request more than there are mods.
pub fetch_all :
    {A : Type 0} (per_page : ℕ) (all : List A)
    → 0 < per_page
    → length all + per_page < 2 ^ 64
    → fetch (suc (length all)) per_page 0 all ≡ ok all
fetch_all per_page all pos fits =
    fetch-rest (suc (length all)) per_page 0 all pos fits (omega arith) (omega arith)
    ∙ ap (λ n. ok (drop n all)) (times_zero per_page)
