-- ===== src/Base/Ordered.antt =====
-- std::set<string> and std::sort: texts in lexicographic order of their bytes.
use mathlib.Core.Bool.{Bool, true, false, ◌&&◌}
use mathlib.Core.List.{List, [], ◌∷◌}
use duckdb_aws_glue.Base.Tests.{◌==◌, ltb, if◌then◌else◌}
use duckdb_aws_glue.Base.Texts.{Text}

-- a < b
unfoldable pub text_lt : Text → Text → Bool
text_lt [] [] = false
text_lt [] (b ∷ t) = true
text_lt (a ∷ s) [] = false
text_lt (a ∷ s) (b ∷ t) = if ltb a b then true else a == b && text_lt s t

-- std::set::insert
unfoldable pub insert_text : Text → List Text → List Text
insert_text x [] = x ∷ []
insert_text x (y ∷ l) =
    if text_lt x y then x ∷ y ∷ l else if text_lt y x then y ∷ insert_text x l else y ∷ l

-- a place behind all elements that are not greater
unfoldable pub insert_sorted : Text → List Text → List Text
insert_sorted x [] = x ∷ []
insert_sorted x (y ∷ l) = if text_lt x y then x ∷ y ∷ l else y ∷ insert_sorted x l

-- std::sort
unfoldable pub sort_texts : List Text → List Text
unfolding insert_sorted
sort_texts [] = []
sort_texts (x ∷ l) = insert_sorted x (sort_texts l)
