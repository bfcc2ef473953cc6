-- ===== src/Filters/Runs.antt =====
-- Which messages a run of filters lists, and its bounds (src/shared/message-filters.ts).
use material_email.Prelude.{Bool, List, [], ◌∷◌, filter, take, not, any, false}
use material_email.Runtime.{Unicode, RegExp, Numbers}
use material_email.Filters.Model.{FilterAction, MessageFilter, FilterSubject, filter_limit}
use material_email.Filters.Collapse.{is_stop}
use material_email.Filters.Evaluation.{fires, sort_message_filters}
use material_email.Filters.Firing.{until_stop}

-- the first action is not `stop`
abbrev pub begins_to_act : List FilterAction → Bool
begins_to_act [] = false
begins_to_act (a ∷ actions) = not (is_stop a.kind)

-- An evaluation has an effect: of the filters that fire, up to the first that stops, one has an
-- action in front of its `stop`.
abbrev pub has_effect :
    (u : Unicode) (r : RegExp) (n : Numbers) → List MessageFilter → n.Num → FilterSubject → Bool
has_effect u r n applicable now s =
    any (λ (f : MessageFilter). begins_to_act f.actions)
      (until_stop
        (filter (fires u r n s now) (take filter_limit (sort_message_filters u applicable))))
