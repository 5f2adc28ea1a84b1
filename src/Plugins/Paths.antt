-- ===== src/Plugins/Paths.antt =====
-- The paths that two of the plugins take, by their parts.
use pdag.Common.{
  ◌≡◌, ◌↔◌, refl, sym, ap, ◌∙◌, subst, true, ◌&&◌, ◌==◌, Text, codes, text_eq, text_eq_iff, List,
  [], ◌∷◌, length, leb, arith,
}
use pdag.Plugins.{under_zones}

-- The parts of a path below a zone of a server, from the zone on.
abbrev pub below_zones : Text → List Text → List Text
below_zones server rest = codes "api" ∷ codes "v1" ∷ codes "servers" ∷ server ∷ codes "zones" ∷ rest

zones_path :
    (server zone : Text) (rest : List Text)
    → (leb 6 (length (below_zones server (zone ∷ rest)))
        && under_zones (below_zones server (zone ∷ rest)))
      ≡ true
unfolding text_eq
zones_path server zone rest = ground arith

same_parts :
    (a b c d e f : Text) (rest : List Text)
    → a ≡ codes "api"
    → b ≡ codes "v1"
    → c ≡ codes "servers"
    → e ≡ codes "zones"
    → a ∷ b ∷ c ∷ d ∷ e ∷ f ∷ rest ≡ below_zones d (f ∷ rest)
same_parts a b c d e f rest p q r s = cc

pub under_zones_iff :
    (parts : List Text)
    → ((leb 6 (length parts) && under_zones parts) ≡ true) ↔ (
        (server : Text) × (zone : Text) × (rest : List Text) × (parts
          ≡ below_zones server (zone ∷ rest)))
under_zones_iff [] = (λ h. absurd (ground arith), λ e. let q = e.3 in absurd (ground arith))
under_zones_iff (a ∷ []) = (λ h. absurd (ground arith), λ e. let q = e.3 in absurd (ground arith))
under_zones_iff (a ∷ b ∷ []) =
    (λ h. absurd (ground arith), λ e. let q = e.3 in absurd (ground arith))
under_zones_iff (a ∷ b ∷ c ∷ []) =
    (λ h. absurd (ground arith), λ e. let q = e.3 in absurd (ground arith))
under_zones_iff (a ∷ b ∷ c ∷ d ∷ []) =
    (λ h. absurd (ground arith), λ e. let q = e.3 in absurd (ground arith))
under_zones_iff (a ∷ b ∷ c ∷ d ∷ e ∷ []) =
    (λ h. absurd (ground arith), λ e. let q = e.3 in absurd (ground arith))
under_zones_iff (a ∷ b ∷ c ∷ d ∷ e ∷ f ∷ rest) = (
  λ h. (
    d,
    f,
    rest,
    same_parts a b c d e f rest (ground (arith, text_eq_iff a (codes "api")))
        (ground (arith, text_eq_iff b (codes "v1")))
        (ground (arith, text_eq_iff c (codes "servers")))
        (ground (arith, text_eq_iff e (codes "zones"))),
  ),
  λ x.
      subst (λ ps. (leb 6 (length ps) && under_zones ps) ≡ true) (sym x.3) (zones_path x.0 x.1 x.2),
)

-- Six parts are a zone with nothing below it.
pub zone_path_iff :
    (parts : List Text)
    → ((length parts == 6 && under_zones parts) ≡ true)
      ↔ ((server : Text) × (zone : Text) × (parts ≡ below_zones server (zone ∷ [])))
zone_path_iff parts =
    let under = under_zones_iff parts in
    (
      λ h.
          (let u = under.0 (ground arith) in
            (
              u.0,
              u.1,
              u.3
                  ∙ ap (λ r. below_zones u.0 (u.1 ∷ r))
                      (no_more u.2 (let l = ap length u.3 in ground arith)),
            )),
      λ e. rw e.2 (let w = zones_path e.0 e.1 [] in ground arith),
    )
  where
    no_more : (rest : List Text) → length rest ≡ 0 → rest ≡ []
    no_more [] h = refl
    no_more (r ∷ rest) h = absurd (ground arith)
