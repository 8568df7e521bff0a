-- ===== src/Examples/Requests.antt =====
-- Strings and requests at concrete inputs.
use cutis.Common.{◌≡◌, refl, [], ◌∷◌, codes}
use cutis.Sds.{split_from, sdssplitlen}

-- Two spaces give an empty token, which is dropped.
split_two_spaces : sdssplitlen b' ' (codes "get  k") ≡ codes "get" ∷ [] ∷ codes "k" ∷ []
unfolding sdssplitlen split_from
split_two_spaces = refl
