-- ===== src/Store/Content.antt =====
-- What an object holds, whatever the layout of a set's table.
use mathlib.Core.Path.{fun_ext}
use cutis.Common.{ℕ, ◌≡◌, Option, none, some, List, Bytes}
use cutis.Dict.{Dict}
use cutis.Dict.Resize.{lookup}
use cutis.Key.{sds_dict_type}
use cutis.Store.{Obj, string, list, set}

pub data Content : Type 0 where
  missing : Content
  text : Bytes → Content
  items : List Bytes → Content
  members : ℕ → (Bytes → Option (Bytes × Unit {0})) → Content

abbrev pub content : Option Obj → Content
content none = missing
content (some (string v)) = text v
content (some (list l)) = items l
content (some (set d)) = members d.used (λ q. lookup d q)

-- Sets of as many elements that find the same ones have the same content.
pub content-set :
    (d e : Dict Bytes (Unit {0}))
    → d.used ≡ e.used
    → ((q : Bytes) → lookup d q ≡ lookup e q)
    → content (some (set d)) ≡ content (some (set e))
content-set d e same_used same = λ i. members (same_used i) (fun_ext same i)
