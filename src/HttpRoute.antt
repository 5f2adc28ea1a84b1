-- ===== src/HttpRoute.antt =====
-- internal/httproute/normalize.go: the label of a path in metrics and span names.
pub mod Labels
mod Tests
use mathlib.Core.List.{reverse}
use pdag.Common.{
  ℕ, zero, suc, ◌≡◌, Bool, true, false, not, ◌&&◌, ◌||◌, ◌==◌, Text, codes, text_eq, split, join,
  trim_prefix, List, [], ◌∷◌, ◌++◌, Option, none, some, any, length, ltb, if◌then◌else◌,
}

abbrev pub other_path : Text
other_path = codes "/other"

abbrev pub known_fixed_paths : List Text
known_fixed_paths = codes "healthz" ∷ codes "readyz" ∷ codes "metrics" ∷ []

abbrev pub zone_tail_actions : List Text
zone_tail_actions = codes "export" ∷ codes "notify" ∷ codes "axfr-retrieve" ∷ codes "rectify" ∷ []

abbrev pub is_in : List Text → Text → Bool
is_in texts t = any (λ u. text_eq u t) texts

-- parts[i], and parts[i] = v, at an index in range.
abbrev pub part : List Text → ℕ → Text
part [] i = []
part (p ∷ ps) zero = p
part (p ∷ ps) (suc i) = part ps i

abbrev pub set_part : List Text → ℕ → Text → List Text
set_part [] i v = []
set_part (p ∷ ps) zero v = v ∷ ps
set_part (p ∷ ps) (suc i) v = p ∷ set_part ps i v

-- "/" + strings.Join(parts, "/")
abbrev pub rejoin : List Text → Text
rejoin parts = b'/' ∷ join b'/' parts

drop_empty : List Text → List Text
drop_empty [] = []
drop_empty (p ∷ ps) = let rest = drop_empty ps in if text_eq p [] then rest else p ∷ ps

-- The loop that removes empty parts from the end.
unfoldable pub trim_trailing : List Text → List Text
unfolding drop_empty
trim_trailing parts = reverse (drop_empty (reverse parts))

-- The switch on the zone's sub-resource, with the server and the zone masked.
unfoldable pub zone_tail : List Text → Text
zone_tail parts =
    let tail = part parts 6 in
    if is_in zone_tail_actions tail && length parts == 7
    then rejoin parts
    else if text_eq (codes "cryptokeys") tail
    then (if length parts == 7
        then rejoin parts
        else if length parts == 8
        then rejoin (set_part parts 7 (codes ":cryptokey_id"))
        else other_path)
    else if text_eq (codes "metadata") tail
    then (if length parts == 7
        then rejoin parts
        else if length parts == 8
        then rejoin (set_part parts 7 (codes ":kind"))
        else other_path)
    else other_path

-- What follows `parts[3] = ":server_id"`.
unfoldable pub under_server : List Text → Text
under_server parts =
    if length parts == 4
    then rejoin parts
    else if not (text_eq (codes "zones") (part parts 4))
    then (if length parts == 5 then rejoin parts else other_path)
    else if length parts == 5
    then rejoin parts
    else (let masked = set_part parts 5 (codes ":zone_id") in
        if length parts == 6 then rejoin masked else zone_tail masked)

-- Normalize, from the parts on.
unfoldable pub label : List Text → Text
label parts =
    if length parts == 0
    then codes "/"
    else if length parts == 1 && is_in known_fixed_paths (part parts 0)
    then b'/' ∷ part parts 0
    else if ltb (length parts) 3
        || not (text_eq (codes "api") (part parts 0))
        || not (text_eq (codes "v1") (part parts 1))
        || not (text_eq (codes "servers") (part parts 2))
    then other_path
    else if length parts == 3
    then codes "/api/v1/servers"
    else under_server (set_part parts 3 (codes ":server_id"))

unfoldable pub normalize : Text → Text
normalize path = label (trim_trailing (split b'/' (trim_prefix (codes "/") path)))
