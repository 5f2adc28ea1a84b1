-- ===== src/Plugins.antt =====
-- plugins: what the example plugins answer with, and the parts of a path that some of them look at.
pub mod Paths
pub mod Admin
pub mod ApiDiscovery
pub mod ReadZones
pub mod ZoneNotify
pub mod Challenger
mod Tests
use pdag.Common.{
  ℕ, Bool, true, false, ◌&&◌, Text, codes, text_eq, split, trim_prefix, List, [], ◌∷◌, Option, none,
  some, get_elem?,
}
use pdag.Manager.{Decision, allows, denies}

-- AuthorizeResponse
pub record AuthorizeResponse : Type 0 where
  pub decision : Decision
  pub reason : Text

abbrev pub allow : Text → AuthorizeResponse
allow reason = record { decision = allows; reason = reason }

abbrev pub deny : Text → AuthorizeResponse
deny reason = record { decision = denies; reason = reason }

-- strings.Split(strings.TrimPrefix(path, "/"), "/")
abbrev pub path_parts : Text → List Text
path_parts path = split b'/' (trim_prefix (codes "/") path)

-- parts[i] == s, where there is such a part.
abbrev pub part_is : List Text → ℕ → Text → Bool
part_is parts i s = elim (get_elem? parts i) [ none ↦ false | some part ↦ text_eq part s ]

abbrev pub under_zones : List Text → Bool
under_zones parts =
    part_is parts 0 (codes "api")
    && (part_is parts 1 (codes "v1")
        && (part_is parts 2 (codes "servers") && part_is parts 4 (codes "zones")))
