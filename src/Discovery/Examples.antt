-- ===== src/Discovery/Examples.antt =====
-- The tags of an agent, as its owner writes them.
use claw_net.Base.{◌≡◌, refl, not, ◌&&◌, List, [], ◌∷◌, map, Bytes, codes, same_bytes, bytes_lt}
use claw_net.Discovery.{
  normalize_tag, normalize_tags, canonical, cleaned, tag_aliases, holds_tag, is_empty,
}
use claw_net.Discovery.Ascending.{Strict, normalize_tags_lem}
use claw_net.Discovery.Normal.{normalize_tag_idem}

abbrev skills : List Bytes
skills =
    codes "  Web-Scraping "
    ∷ codes "golang"
    ∷ codes "Data Analysis"
    ∷ codes " "
    ∷ codes "scraping"
    ∷ codes "go"
    ∷ []

normalize_tags_lem_example :
    Strict (normalize_tags skills)
    × ((t : Bytes)
        → holds_tag t (normalize_tags skills)
          ≡ (not (is_empty t) && holds_tag t (map normalize_tag skills)))
normalize_tags_lem_example = normalize_tags_lem skills

normalize_tag_idem_example :
    normalize_tag (normalize_tag (codes " ML ")) ≡ normalize_tag (codes " ML ")
normalize_tag_idem_example = normalize_tag_idem (codes " ML ")

skills_normalized :
    normalize_tags skills ≡ codes "data-analysis" ∷ codes "data-collection" ∷ codes "go" ∷ []
unfolding normalize_tags normalize_tag canonical cleaned tag_aliases same_bytes bytes_lt
skills_normalized = refl
