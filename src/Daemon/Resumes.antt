-- ===== src/Daemon/Resumes.antt =====
-- Skills of a resume: `parseTags` and `AutoUpdateResumeSkills` of
-- clawnet-cli/internal/store/resume.go.
use claw_net.Base.{
  String, Bool, true, false, not, ◌||◌, none, some, List, [], ◌∷◌, ◌++◌, if◌then◌else◌, ◌==◌, map,
  select,
}
use claw_net.Base.Table.{find, insert}
use claw_net.Daemon.Node.{Node, Env}

unfoldable pub has_tag : String → List String → Bool
has_tag t [] = false
has_tag t (u ∷ us) = u == t || has_tag t us

-- The loop that appends the tags that are new: `existing` is also the map existSet.
unfoldable pub append_new : List String → List String → List String
append_new existing [] = existing
append_new existing (t ∷ ts) =
    append_new (if has_tag t existing then existing else existing ++ (t ∷ [])) ts

-- Whether that loop appends anything.
unfoldable pub has_new : List String → List String → Bool
has_new existing [] = false
has_new existing (t ∷ ts) = not (has_tag t existing) || has_new existing ts

module _ (env : Env) where
  open env use {unmarshal, marshal, trim_space, to_lower, split_commas}

  abbrev clean : List String → List String
  clean tags = select (λ t. not (t == "")) (map (λ t. trim_space (to_lower t)) tags)

  unfoldable pub parse_tags : String → List String
  parse_tags raw =
      let raw = trim_space raw in
      if raw == "" || raw == "[]"
      then []
      else clean (elim (unmarshal raw) [ none ↦ split_commas raw | some tags ↦ tags ])

  unfoldable pub auto_update_resume_skills : String → String → Node → Node × Bool
  auto_update_resume_skills peer tags n = elim (find peer n.resumes) [
    | none ↦ (n, false)
    | some resume ↦
        let existing = parse_tags resume.skills in
        if has_new existing (parse_tags tags)
        then (
          record n {
            resumes =
                insert peer
                  (record resume { skills = marshal (append_new existing (parse_tags tags)) })
                  n.resumes;
          },
          true,
        )
        else (n, false)
  ]
