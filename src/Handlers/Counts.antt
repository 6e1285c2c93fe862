-- ===== src/Handlers/Counts.antt =====
-- The counting objects of `handleStats` in src/api/stats.ts: `counts[key] = (counts[key] || 0) + 1` on a
-- JavaScript object, which inherits properties. The order of the entries stands for nothing.
use ipfs_shard.Shared.{
  ℕ, suc, ◌+◌, ◌-◌, List, [], ◌∷◌, Bool, true, false, ◌||◌, Option, none, some, String, str_eq, ltb,
  if◌then◌else◌,
}
use ipfs_shard.Shared.Assoc.{lookup, insert}

-- A number, or the text that `+ 1` makes of an inherited function or of a text.
pub data Slot : Type 0 where
  count : ℕ → Slot
  some_text : Slot

-- The properties of `Object.prototype`.
abbrev pub is_one_of : String → List String → Bool
is_one_of key [] = false
is_one_of key (name ∷ names) = str_eq name key || is_one_of key names

unfoldable pub is_inherited : String → Bool
is_inherited key = is_one_of key (
    "constructor" ∷ "toString" ∷ "toLocaleString" ∷ "valueOf" ∷ "hasOwnProperty" ∷ "isPrototypeOf"
    ∷ "propertyIsEnumerable" ∷ "__defineGetter__" ∷ "__defineSetter__" ∷ "__lookupGetter__"
    ∷ "__lookupSetter__" ∷ [])

abbrev pub one_more : Option Slot → Bool → Slot
one_more (some (count n)) inherited = count (suc n)
one_more (some some_text) inherited = some_text
one_more none true = some_text
one_more none false = count 1

-- A text that is assigned to `__proto__` is ignored.
unfoldable pub bump : String → List (String × Slot) → List (String × Slot)
unfolding lookup insert
bump key counts =
    if str_eq key "__proto__"
    then counts
    else insert key (one_more (lookup key counts) (is_inherited key)) counts

-- `Object.values(counts).reduce((a, b) => a + b, 0)`; `none` is a text that is no numeral.
abbrev pub add_slot : Slot → Option ℕ → Option ℕ
add_slot (count n) none = none
add_slot (count n) (some total) = some (n + total)
add_slot some_text total = none

unfoldable pub total_of : List (String × Slot) → Option ℕ
total_of [] = some 0
total_of ((key, slot) ∷ counts) = add_slot slot (total_of counts)

-- The peers that are not counted; the comparison with a text is false.
abbrev pub fill_unknown : ℕ → Option ℕ → List (String × Slot) → List (String × Slot)
fill_unknown peers none counts = counts
fill_unknown peers (some total) counts =
    if ltb total peers then insert "unknown" (count (peers - total)) counts else counts

unfoldable pub add_unknown : ℕ → List (String × Slot) → List (String × Slot)
unfolding total_of insert
add_unknown peers counts = fill_unknown peers (total_of counts) counts
