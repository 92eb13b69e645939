-- ===== src/Tests/Registry.antt =====
-- The theorems on function paths at the function `sync` of the module `app`.
use pq.Base.{◌≡◌, ◌↔◌, refl, arith, false, codes, Text, text_eq}
use pq.Errors.{ok}
use pq.Registry.{text_value, get_function_path, resolve_function_path, found, lambda_name}
use pq.Registry.Paths.{resolve-get_function_path, get_function_path_iff}
use pq.Tests.Samples.{sync_function}

resolve-get_function_path_example :
    resolve_function_path (λ m n. found n) (codes "app:sync") ≡ ok (codes "sync")
unfolding get_function_path text_eq
resolve-get_function_path_example =
    resolve-get_function_path (λ m n. found n) sync_function (codes "app") (codes "sync")
      (codes "app:sync") (codes "sync") refl refl (ground arith) refl refl

get_function_path_iff_example : ((path : Text) × (get_function_path sync_function ≡ ok path)) ↔ (
    (m : Text) × (n : Text) × (sync_function.module_attr ≡ text_value m)
    × (sync_function.name_attr ≡ text_value n)
    × (text_eq n lambda_name ≡ false)
    × (sync_function.has_free_variables ≡ false))
get_function_path_iff_example = get_function_path_iff sync_function
