-- ===== src/Discovery.antt =====
-- Capability tags: clawnet-cli/internal/discovery/tags.go. A text is the list of its bytes, all below 128: the
-- case of other letters and their spaces are left out.
use claw_net.Base.{
  ℕ, ◌+◌, Bool, true, false, ◌&&◌, ◌||◌, not, Option, none, some, String, List, [], ◌∷◌, ◌++◌, map,
  length, select, Bytes, codes, same_bytes, bytes_lt, leb, ◌==ℕ◌, if◌then◌else◌,
}
use claw_net.Base.Int.{pos}
use claw_net.Float.{Float64, Floats}
pub mod Members
pub mod Ascending
pub mod Normal
mod Examples

-- A map from a text to a text, as its literal lists it.
abbrev pub lookup : Bytes → List (Bytes × Bytes) → Option Bytes
lookup k [] = none
lookup k ((a, t) ∷ m) = if same_bytes a k then some t else lookup k m

abbrev alias : String → String → Bytes × Bytes
alias a t = (codes a, codes t)

unfoldable pub tag_aliases : List (Bytes × Bytes)
tag_aliases =
    alias "js" "javascript"
    ∷ alias "ts" "typescript"
    ∷ alias "py" "python"
    ∷ alias "golang" "go"
    ∷ alias "c++" "cpp"
    ∷ alias "ml" "machine-learning"
    ∷ alias "dl" "deep-learning"
    ∷ alias "cv" "computer-vision"
    ∷ alias "translate" "translation"
    ∷ alias "write" "writing"
    ∷ alias "edit" "editing"
    ∷ alias "review" "code-review"
    ∷ alias "test" "testing"
    ∷ alias "deploy" "deployment"
    ∷ alias "ops" "devops"
    ∷ alias "frontend-dev" "frontend"
    ∷ alias "backend-dev" "backend"
    ∷ alias "full-stack" "fullstack"
    ∷ alias "data-analytics" "data-analysis"
    ∷ alias "data-collection" "data-collection"
    ∷ alias "web-scraping" "data-collection"
    ∷ alias "scraping" "data-collection"
    ∷ []

-- strings.ToLower on one byte.
abbrev pub to_lower : ℕ → ℕ
to_lower c = if leb 65 c && leb c 90 then c + 32 else c

-- Tab, line feed, vertical tab, form feed, carriage return and space.
abbrev pub is_space : ℕ → Bool
is_space c = (leb 9 c && leb c 13) || (c ==ℕ 32)

abbrev pub trim_left : Bytes → Bytes
trim_left [] = []
trim_left (c ∷ t) = let rest = trim_left t in if is_space c then rest else c ∷ t

abbrev pub trim_right : Bytes → Bytes
trim_right [] = []
trim_right (c ∷ t) = if_all_space c (trim_right t)
  where
    if_all_space : ℕ → Bytes → Bytes
    if_all_space c [] = if is_space c then [] else c ∷ []
    if_all_space c (d ∷ t) = c ∷ d ∷ t

-- strings.ReplaceAll(t, " ", "-") on one byte.
abbrev pub dash : ℕ → ℕ
dash c = if c ==ℕ 32 then 45 else c

unfoldable pub cleaned : Bytes → Bytes
cleaned raw = map dash (trim_right (trim_left (map to_lower raw)))

unfoldable pub canonical : Bytes → Bytes
canonical t = elim (lookup t tag_aliases) [ none ↦ t | some name ↦ name ]

unfoldable pub normalize_tag : Bytes → Bytes
normalize_tag raw = canonical (cleaned raw)

abbrev pub is_empty : Bytes → Bool
is_empty [] = true
is_empty _ = false

-- The keys of `seen`, a Go map to true, in any order.
abbrev pub holds_tag : Bytes → List Bytes → Bool
holds_tag t [] = false
holds_tag t (s ∷ ts) = same_bytes s t || holds_tag t ts

-- The loop of `NormalizeTags`, with its variables `seen` and `result`.
abbrev pub gather_tags : List Bytes → List Bytes → List Bytes → List Bytes
gather_tags seen result [] = result
gather_tags seen result (raw ∷ raws) =
    let t = normalize_tag raw in
    let skip = gather_tags seen result raws in
    let add = gather_tags (t ∷ seen) (result ++ t ∷ []) raws in
    if not (is_empty t) && not (holds_tag t seen) then add else skip

-- sort.Strings
abbrev pub insert_tag : Bytes → List Bytes → List Bytes
insert_tag t [] = t ∷ []
insert_tag t (s ∷ ts) = let rest = insert_tag t ts in if bytes_lt s t then s ∷ rest else t ∷ s ∷ ts

abbrev pub sort_tags : List Bytes → List Bytes
sort_tags [] = []
sort_tags (t ∷ ts) = insert_tag t (sort_tags ts)

unfoldable pub normalize_tags : List Bytes → List Bytes
normalize_tags tags = sort_tags (gather_tags [] [] tags)

-- The part of the required tags that the agent has, and those tags.
unfoldable pub tag_overlap : Floats → List Bytes → List Bytes → Float64 × List Bytes
tag_overlap fl agent_tags required_tags =
    let agent_set = map normalize_tag agent_tags in
    let matched = select (λ t. holds_tag (normalize_tag t) agent_set) required_tags in
    if length required_tags ==ℕ 0 then (fl.decimal (pos 1) 0, []) else (
      fl.div (fl.decimal (pos (length matched)) 0) (fl.decimal (pos (length required_tags)) 0),
      matched,
    )
