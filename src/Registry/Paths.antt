-- ===== src/Registry/Paths.antt =====
-- Function paths of src/pq/registry.py: which functions have one, and what it resolves to.
use pq.Base.{◌≡◌, ◌≢◌, refl, false, none, some, [], ◌∷◌, ◌++◌, Text, All, arith, ◌↔◌, text_eq}
use pq.Errors.{ok, err, attribute_error}
use pq.Registry.{
  Function, Attr, missing, none_value, text_value, get_function_path, rsplit, rsplit_step, Import,
  found, resolve_function_path, lambda_name,
}

abbrev pub HasNoColon : Text → Type 0
HasNoColon t = All (λ c. c ≢ b':') t

rsplit-none : (t : Text) → HasNoColon t → rsplit t ≡ none
unfolding rsplit
rsplit-none [] h = refl
rsplit-none (c ∷ t) h = rw (rsplit-none t h.1, rsplit_step) (ground arith)

rsplit-join : (m n : Text) → HasNoColon n → rsplit (m ++ b':' ∷ n) ≡ some (m, n)
unfolding rsplit
rsplit-join [] n h = rw (rsplit-none n h, rsplit_step)
rsplit-join (c ∷ m) n h = rw (rsplit-join m n h, rsplit_step)

get_function_path-eq-ok :
    (fn : Function) (m n path : Text)
    → fn.module_attr ≡ text_value m
    → fn.name_attr ≡ text_value n
    → get_function_path fn ≡ ok path
    → path ≡ m ++ b':' ∷ n
unfolding get_function_path
get_function_path-eq-ok fn m n path hm hn h = ground arith

-- Where the function's name has no colon, the path of a function resolves to whatever the
-- function's own module holds under its own name, and needs no other import.
pub resolve-get_function_path :
    {F : Type 0} (importer : Text → Text → Import F) (fn : Function) (m n path : Text) (f : F)
    → fn.module_attr ≡ text_value m
    → fn.name_attr ≡ text_value n
    → HasNoColon n
    → importer m n ≡ found f
    → get_function_path fn ≡ ok path
    → resolve_function_path importer path ≡ ok f
unfolding resolve_function_path
resolve-get_function_path importer fn m n path f hm hn colon hf h =
    rw (
      get_function_path-eq-ok fn m n path hm hn h,
      resolve_function_path,
      rsplit-join m n colon,
      hf,
    )

-- A function has a path exactly when it has a name other than "<lambda>", no free variables, and
-- texts for its module and its name.
pub get_function_path_iff :
    (fn : Function)
    → ((path : Text) × (get_function_path fn ≡ ok path)) ↔ (
        (m : Text) × (n : Text) × (fn.module_attr ≡ text_value m)
        × (fn.name_attr ≡ text_value n)
        × (text_eq n lambda_name ≡ false)
        × (fn.has_free_variables ≡ false))
unfolding get_function_path
get_function_path_iff fn = (
  λ (path, h). parts fn.module_attr fn.name_attr refl refl path h,
  λ (m, n, hm, hn, l, v). (m ++ b':' ∷ n, ground arith),
)
  where
    parts :
        (a b : Attr)
        → fn.module_attr ≡ a
        → fn.name_attr ≡ b
        → (path : Text) → get_function_path fn ≡ ok path
        → (m : Text) × (n : Text) × (fn.module_attr ≡ text_value m)
          × (fn.name_attr ≡ text_value n)
          × (text_eq n lambda_name ≡ false)
          × (fn.has_free_variables ≡ false)
    parts (text_value m) (text_value n) hm hn path h = (m, n, hm, hn, ground arith, ground arith)
    parts _ missing hm hn path h = absurd (ground arith)
    parts _ none_value hm hn path h = absurd (ground arith)
    parts missing (text_value n) hm hn path h = absurd (ground arith)
    parts none_value (text_value n) hm hn path h = absurd (ground arith)

-- A callable with no `__name__`, such as a `functools.partial`, is refused by an AttributeError.
pub get_function_path_nameless :
    (fn : Function) → fn.name_attr ≡ missing → get_function_path fn ≡ err attribute_error
unfolding get_function_path
get_function_path_nameless fn h = ground arith
