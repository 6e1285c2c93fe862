-- ===== src/Handlers/Paths.antt =====
-- How the handlers of src/api/ read the CID from `req.url`.
use Prim.Native.Char.{Char, code}
use ipfs_shard.Shared.{ℕ, List, [], ◌∷◌, Option, none, some, String, ◌==◌, if◌then◌else◌}

abbrev pub push_char : Char → List String → List String
push_char c [] = String.◌∷◌ c String.[] ∷ []
push_char c (s ∷ parts) = String.◌∷◌ c s ∷ parts

-- `text.split(c)` for a text of one character, given by its code.
unfoldable pub split : ℕ → String → List String
split sep String.[] = String.[] ∷ []
split sep (String.◌∷◌ c s) =
    let rest = split sep s in if code c == sep then String.[] ∷ rest else push_char c rest

abbrev pub head_or_empty : List String → String
head_or_empty [] = ""
head_or_empty (s ∷ parts) = s

-- `parts[2]`, which can be `undefined`.
abbrev pub third : List String → Option String
third [] = none
third (a ∷ []) = none
third (a ∷ b ∷ []) = none
third (a ∷ b ∷ c ∷ parts) = some c

abbrev pub map_head : Option String → Option String
map_head none = none
map_head (some s) = some (head_or_empty (split b'?' s))

-- `url.split('/')[2].split('?')[0]`; `none` is the exception for a path with less than two slashes.
unfoldable pub cid_part : String → Option String
unfolding split
cid_part url = map_head (third (split b'/' url))
