-- ===== src/Storage/Tests.antt =====
-- A small bucket in two pages, and the theorems at it.
use mathlib.Core.List.{Perm, map}
use connect_manager.Prelude.{
  ◌/◌, ◌+◌, ◌∙◌, length, ap, subst, ◌≢◌, ℕ, ◌≤◌, ◌≡◌, refl, String, true, false, List, [], ◌∷◌,
  ◌++◌, Option, none, some, arith,
}
use connect_manager.Text.{codes, lower}
use connect_manager.Text.Format.{shown}
use connect_manager.Db.Table.{Result, ok, err}
use connect_manager.Storage.{
  Reply, folders_in, files_in, S3, S3Item, S3ListResult, Response, reply, client_error,
  list_objects, list_all_objects, format_size,
}
use connect_manager.Storage.Listed.{
  IsArranged, fact, folders_served, files_served, list_objects_complete, list_objects-IsArranged,
}
use connect_manager.Storage.Ends.{list_objects-ends, IsFilled}

abbrev first_page : Response
first_page = record {
  common_prefixes = "d/b/" ∷ [];
  contents = record { key = "d/"; size = 0 } ∷ record { key = "d/Z"; size = 2048 } ∷ [];
  is_truncated = true;
  next_token = some "t";
}

abbrev last_page : Response
last_page = record {
  common_prefixes = "d/A/" ∷ [];
  contents = record { key = "d/a"; size = 7 } ∷ [];
  is_truncated = false;
  next_token = none;
}

abbrev bucket : S3
bucket = record {
  head_bucket = λ b. client_error "403" "denied";
  list_buckets = reply ("b" ∷ []);
  list_objects_v2 = λ b p t. elim t [ none ↦ reply first_page | some u ↦ reply last_page ];
  paginate = λ b p. reply (first_page.contents ∷ last_page.contents ∷ []);
  lower = λ s. lower (codes s);
  fixed = λ d a b. shown (a / b);
}

names : List S3Item → List String
names [] = []
names (x ∷ xs) = x.name ∷ names xs

names_of : Option (Result S3ListResult) → List String
unfolding names
names_of none = []
names_of (some (err e)) = []
names_of (some (ok r)) = names r.items

tests :
    (names_of (list_objects bucket "b" "d/" 5000 2) ≡ "A" ∷ "b" ∷ "a" ∷ "Z" ∷ [])
    × (names_of (list_objects bucket "b" "d/" 2 2) ≡ "b" ∷ "Z" ∷ [])
    × (list_all_objects bucket "b" "d/" ≡ ok ("d/Z" ∷ "d/a" ∷ []))
    × (format_size bucket 1536 ≡ "1 KB")
unfolding names_of list_objects list_all_objects format_size lower
tests = (refl, refl, refl, refl)

list_objects_complete_example :
    (r : S3ListResult) × (list_objects bucket "b" "d/" 5000 2 ≡ some (ok r))
    × (r.is_truncated ≡ false)
    × ((ds : List S3Item) × (fs : List S3Item) × (r.items ≡ ds ++ fs)
        × Perm
            (map (fact bucket "b" "d/") ds)
            (folders_served bucket "b" "d/" (first_page ∷ last_page ∷ []))
        × Perm
            (map (fact bucket "b" "d/") fs)
            (files_served bucket "b" "d/" (first_page ∷ last_page ∷ [])))
unfolding files_in
list_objects_complete_example =
    list_objects_complete bucket "b" "d/" 5000 2 (first_page ∷ last_page ∷ [])
      (refl, refl, ("t", refl, (refl, refl))) (omega arith) (omega arith)

abbrev z_item : S3Item
z_item = record {
  name = "Z";
  key = "d/Z";
  is_folder = false;
  size = (2048, 1048576);
  size_formatted = "2 KB";
}

abbrev b_item : S3Item
b_item = record { name = "b"; key = "d/b/"; is_folder = true; size = (0, 1); size_formatted = "" }

abbrev capped : S3ListResult
capped = record { items = b_item ∷ z_item ∷ []; total_count = 2; is_truncated = true }

list_objects-IsArranged_example : IsArranged bucket "b" "d/" 2 capped
unfolding list_objects
list_objects-IsArranged_example = list_objects-IsArranged bucket "b" "d/" 2 2 capped refl

response_of : Reply Response → Response
response_of (reply r) = r
response_of (client_error code text) = last_page

items_on : Response → ℕ
items_on r = length (folders_in bucket r.common_prefixes) + length (files_in bucket "d/" r.contents)

bucket-IsFilled : IsFilled bucket "b" "d/" 5000
unfolding response_of items_on files_in
bucket-IsFilled none r e t = subst (λ s. 1 ≤ items_on s) (ap response_of e) (ground arith)
bucket-IsFilled (some u) r e t =
    absurd (not_truncated (ap (λ o. (response_of o).is_truncated) e ∙ t))
  where
    not_truncated : false ≢ true
    not_truncated k = cc

list_objects-ends_example : list_objects bucket "b" "d/" 5000 5001 ≢ none
list_objects-ends_example = list_objects-ends bucket "b" "d/" 5000 bucket-IsFilled
