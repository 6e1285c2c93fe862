-- ===== src/Startup/Env.antt =====
-- The environment: src/startup/env.ts. A variable that is set has a text, which can be empty.
use ipfs_shard.Shared.{
  List, [], ◌∷◌, Bool, true, false, ◌||◌, Option, none, some, String, str_eq, if◌then◌else◌,
}

abbrev pub Env : Type 0
Env = String → Option String

abbrev pub is_text : Option String → String → Bool
is_text none t = false
is_text (some s) t = str_eq s t

unfoldable pub is_memory_storage_enabled : Env → Bool
is_memory_storage_enabled env =
    is_text (env "MEMORY_STORAGE") "true" || is_text (env "MEMORY_STORAGE") "1"

-- `!value`
abbrev pub is_falsy : Option String → Bool
is_falsy none = true
is_falsy (some s) = str_eq s ""

abbrev pub required : List String
required = "S3_BUCKET" ∷ "S3_DATASTORE_BUCKET" ∷ "AWS_ACCESS_KEY_ID" ∷ "AWS_SECRET_ACCESS_KEY" ∷ []

unfoldable pub missing_of : Env → List String → List String
missing_of env [] = []
missing_of env (key ∷ keys) =
    let rest = missing_of env keys in if is_falsy (env key) then key ∷ rest else rest

abbrev pub is_nil : List String → Bool
is_nil [] = true
is_nil (x ∷ xs) = false

-- `false`: the process exits with code 1.
unfoldable pub validate_env : Env → Bool
unfolding is_memory_storage_enabled missing_of
validate_env env = if is_memory_storage_enabled env then true else is_nil (missing_of env required)
