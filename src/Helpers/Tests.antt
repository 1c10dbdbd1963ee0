-- ===== src/Helpers/Tests.antt =====
-- Runs of libs/common/src/common.utils.ts, and the hypotheses of its claim at concrete inputs.
use ngotag_platform.Common.{ℕ, ◌≡◌, refl, some, List, [], ◌∷◌, length, arith, str_eq}
use ngotag_platform.Helpers.{paginator, total_pages, did_ledger_namespace}
use ngotag_platform.Helpers.Pages.{pages_from, paginator-pages}

abbrev items : List ℕ
items = 7 ∷ 8 ∷ 9 ∷ 10 ∷ 11 ∷ []

last_page_has_rest : (paginator items 3 2).data_items ≡ 11 ∷ []
unfolding paginator ngotag_platform.Helpers.page_of ngotag_platform.Helpers.or_default
last_page_has_rest = refl

paginator-pages_example : pages_from items 2 (total_pages (length items) 2) 1 ≡ items
paginator-pages_example = paginator-pages items 2 (omega arith)

sepolia_is_test :
    did_ledger_namespace str_eq ("did" ∷ "polygon" ∷ "sepolia" ∷ []) ≡ some "polygon:sepolia"
unfolding did_ledger_namespace ngotag_platform.Helpers.is_did ngotag_platform.Helpers.by_method
    ngotag_platform.Helpers.network_namespace ngotag_platform.Helpers.some_includes
    ngotag_platform.Helpers.join_two
sepolia_is_test = refl
