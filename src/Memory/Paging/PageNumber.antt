-- ===== src/Memory/Paging/PageNumber.antt =====
-- Pages by their number, and by the four indices.
use xp_os.Prelude.{ℕ, ◌+◌, ◌*◌, ◌/◌, ◌%◌, ◌^◌, ◌≡◌, sym, ◌∙◌, arith}
use xp_os.Memory.Paging.{pml4_index, pdpt_index, directory_index, page_index}

-- The number of a page: the 36 bits of an address that the four indices are made of.
abbrev pub page_number : ℕ → ℕ
page_number a = a / 2 ^ 12 % 2 ^ 36

page_number_lem :
    (a : ℕ)
    → page_number a
      ≡ ((pml4_index a * 512 + pdpt_index a) * 512 + directory_index a) * 512 + page_index a
unfolding pml4_index pdpt_index directory_index page_index
page_number_lem a = omega arith

pub same_page :
    (a b : ℕ)
    → pml4_index a ≡ pml4_index b
    → pdpt_index a ≡ pdpt_index b
    → directory_index a ≡ directory_index b
    → page_index a ≡ page_index b
    → page_number a ≡ page_number b
same_page a b h4 h3 h2 h1 =
    page_number_lem a ∙ omega (arith, h4, h3, h2, h1) ∙ sym (page_number_lem b)
