-- ===== src/Registry.antt =====
-- src/pq/registry.py: the import path of a function and back.
-- A callable is known by the attributes that `get_function_path` reads. `importlib` is a parameter.
pub mod Paths
use pq.Base.{
  ℕ, ◌==◌, ◌≡◌, Bool, true, false, Option, none, some, List, [], ◌∷◌, ◌++◌, Text, codes, text_eq,
  if◌then◌else◌,
}
use pq.Errors.{
  Result, ok, err, PyError, value_error, attribute_error, lambda_function, closure, no_import_path,
  invalid_path, not_callable, no_module, no_function, raise_if, ◌>>=◌, ◌>>◌,
}

-- `getattr(fn, attribute)`: there may be no such attribute, and it may be `None`.
pub data Attr : Type 0 where
  missing none_value : Attr
  text_value : Text → Attr

pub record Function : Type 0 where
  pub name_attr : Attr
  pub module_attr : Attr
  -- `fn.__code__.co_freevars` is there and not empty
  pub has_free_variables : Bool

abbrev pub lambda_name : Text
lambda_name = codes "<lambda>"

-- `fn.__name__`
read_name : Attr → Result Attr
read_name missing = err attribute_error
read_name a = ok a

is_lambda : Attr → Bool
is_lambda (text_value t) = text_eq t lambda_name
is_lambda _ = false

join_path : Attr → Attr → Result Text
join_path (text_value m) (text_value n) = ok (m ++ b':' ∷ n)
join_path _ _ = err (value_error no_import_path)

unfoldable pub get_function_path : Function → Result Text
unfolding read_name is_lambda join_path
get_function_path fn = do
  name ← read_name fn.name_attr
  raise_if (is_lambda name) lambda_function
  raise_if fn.has_free_variables closure
  join_path fn.module_attr name

-- `path.rsplit(":", 1)`: the text around its last colon, `none` where it has none.

rsplit_step : ℕ → Text → Option (Text × Text) → Option (Text × Text)
rsplit_step c rest (some r) = some (c ∷ r.0, r.1)
rsplit_step c rest none = if c == b':' then some ([], rest) else none

unfoldable pub rsplit : Text → Option (Text × Text)
unfolding rsplit_step
rsplit [] = none
rsplit (c ∷ t) = rsplit_step c t (rsplit t)

-- What `importlib.import_module` and then `getattr` come to.
pub data Import (F : Type 0) : Type 0 where
  import_failed no_attribute : Import F
  found : F → Import F
  found_other : Import F
  import_raised : PyError → Import F

unfoldable pub resolve_function_path : {F : Type 0} → (Text → Text → Import F) → Text → Result F
resolve_function_path importer path = elim (rsplit path) [
  | none ↦ err (value_error invalid_path)
  | some (module_path, func_name) ↦ elim (importer module_path func_name) [
    | import_failed ↦ err (value_error no_module)
    | no_attribute ↦ err (value_error no_function)
    | found f ↦ ok f
    | found_other ↦ err (value_error not_callable)
    | import_raised e ↦ err e
  ]
]
