-- ===== src/Gateway/Control.antt =====
-- The HTTP endpoint of control_plane/delegates/management/commands/restart_gateway.py: `do_GET` and
-- `do_POST`. The headers are left out, and the two coroutines are taken to end within their timeout.
use delegate_implementation.Base.{
  ℕ, Text, codes, text_eq, List, [], ◌∷◌, map, Option, none, some, Bool, ◌==◌, if◌then◌else◌,
}
use delegate_implementation.Platform.{Platform}
use delegate_implementation.Gateway.{Gateway, disconnect, send_restart}

-- The JSON object that is written; `empty` where nothing is.
pub data Content : Type 0 where
  connected : List Text → Content
  sent disconnected : Bool → Content
  empty : Content

pub record Answer : Type 0 where
  pub status : ℕ
  pub content : Content

-- `path.split(prefix, 1)[1]` where `path.startswith(prefix)`
unfoldable pub after_prefix : Text → Text → Option Text
after_prefix [] path = some path
after_prefix (c ∷ cs) [] = none
after_prefix (c ∷ cs) (d ∷ path) = let rest = after_prefix cs path in if c == d then rest else none

abbrev pub restart_path : Text
restart_path = codes "/restart/"

abbrev pub disconnect_path : Text
disconnect_path = codes "/disconnect/"

unfoldable pub do_get : Text → Gateway → Answer
do_get path g =
    if text_eq path (codes "/connected")
    then record { status = 200; content = connected (map (λ e. e.0) g.connected) }
    else record { status = 404; content = empty }

unfoldable pub do_post : Platform → Text → Gateway → Answer × Gateway
do_post p path g = elim (after_prefix restart_path path) [
  | some delegate_id ↦
      let (done, g') = send_restart p delegate_id g in
      (record { status = if done then 200 else 404; content = sent done }, g')
  | none ↦ elim (after_prefix disconnect_path path) [
    | some delegate_id ↦
        let (closed, g') = disconnect delegate_id g in
        (record { status = 200; content = disconnected closed }, g')
    | none ↦ (record { status = 404; content = empty }, g)
  ]
]
