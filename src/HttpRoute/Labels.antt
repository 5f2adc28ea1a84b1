-- ===== src/HttpRoute/Labels.antt =====
-- How many labels there are.
use pdag.Common.{
  ◌≡◌, ◌⊎◌, inl, inr, refl, Bool, true, false, ◌&&◌, Text, codes, text_eq, text_eq_iff,
  text_eq_refl, split, split-no_separator, split-append, join, trim_prefix, List, [], ◌∷◌, ◌++◌,
  All, subst, arith, Bool-cases, &&-eq-true, contains_byte,
}
use pdag.HttpRoute.{
  other_path, known_fixed_paths, zone_tail_actions, is_in, trim_trailing, zone_tail, under_server,
  label, normalize,
}

-- The labels that the code means to use, but for those of a server's other resources.
abbrev pub templates : List Text
templates =
    codes "/"
    ∷ codes "/other"
    ∷ codes "/healthz"
    ∷ codes "/readyz"
    ∷ codes "/metrics"
    ∷ codes "/api/v1/servers"
    ∷ codes "/api/v1/servers/:server_id"
    ∷ codes "/api/v1/servers/:server_id/zones"
    ∷ codes "/api/v1/servers/:server_id/zones/:zone_id"
    ∷ codes "/api/v1/servers/:server_id/zones/:zone_id/export"
    ∷ codes "/api/v1/servers/:server_id/zones/:zone_id/notify"
    ∷ codes "/api/v1/servers/:server_id/zones/:zone_id/axfr-retrieve"
    ∷ codes "/api/v1/servers/:server_id/zones/:zone_id/rectify"
    ∷ codes "/api/v1/servers/:server_id/zones/:zone_id/cryptokeys"
    ∷ codes "/api/v1/servers/:server_id/zones/:zone_id/cryptokeys/:cryptokey_id"
    ∷ codes "/api/v1/servers/:server_id/zones/:zone_id/metadata"
    ∷ codes "/api/v1/servers/:server_id/zones/:zone_id/metadata/:kind"
    ∷ []

pub is_template : Text → Bool
unfolding text_eq
is_template = is_in templates

-- The parts of a path of the API from the server's id on.
abbrev pub api : List Text → List Text
api rest = codes "api" ∷ codes "v1" ∷ codes "servers" ∷ rest

-- A member of a list of texts is one of them.
is_in_cases :
    (P : Text → Type 0) (texts : List Text) (t : Text) → All P texts → is_in texts t ≡ true → P t
is_in_cases P [] t h m = cc
is_in_cases P (u ∷ us) t h m = elim (Bool-cases (text_eq u t)) [
  | inl same ↦ subst P ((text_eq_iff u t).0 same) h.0
  | inr other ↦ is_in_cases P us t h.1 (ground arith)
]

abbrev zone : Text → List Text → List Text
zone tail rest = api (codes ":server_id" ∷ codes "zones" ∷ codes ":zone_id" ∷ tail ∷ rest)

abbrev known_tails : List Text
known_tails = codes "cryptokeys" ∷ codes "metadata" ∷ zone_tail_actions

abbrev TailLabelled : List Text → Text → Type 0
TailLabelled rest tail = is_template (zone_tail (zone tail rest)) ≡ true

-- A sub-resource is one of the known ones, and then its label is known, or it is another.
tail_labelled :
    (rest : List Text) (tail : Text)
    → All (TailLabelled rest) known_tails
    → (is_in known_tails tail ≡ false → TailLabelled rest tail)
    → TailLabelled rest tail
tail_labelled rest tail known unknown = elim (Bool-cases (is_in known_tails tail)) [
  | inl one ↦ is_in_cases (TailLabelled rest) known_tails tail known one
  | inr other ↦ unknown other
]

known_0 : All (TailLabelled []) known_tails
unfolding zone_tail is_template text_eq join
known_0 = (refl, (refl, (refl, (refl, (refl, (refl, tt))))))

known_1 : (x : Text) → All (TailLabelled (x ∷ [])) known_tails
unfolding zone_tail is_template text_eq join
known_1 x = (refl, (refl, (refl, (refl, (refl, (refl, tt))))))

too_deep : (tail x y : Text) (rest : List Text) → zone_tail (zone tail (x ∷ y ∷ rest)) ≡ other_path
unfolding zone_tail
too_deep tail x y rest = ground arith

unknown_tail :
    (tail : Text) (rest : List Text)
    → is_in known_tails tail ≡ false
    → zone_tail (zone tail rest) ≡ other_path
unfolding zone_tail
unknown_tail tail rest h = ground arith

other_template : is_template other_path ≡ true
unfolding is_template text_eq
other_template = refl

zone_tail_template : (tail : Text) (rest : List Text) → TailLabelled rest tail
zone_tail_template tail [] =
    tail_labelled [] tail known_0 (λ other. rw (unknown_tail tail [] other) other_template)
zone_tail_template tail (x ∷ []) =
    tail_labelled (x ∷ []) tail (known_1 x)
      (λ other. rw (unknown_tail tail (x ∷ []) other) other_template)
zone_tail_template tail (x ∷ y ∷ rest) = rw (too_deep tail x y rest) other_template

-- A label is a template, or it names a resource of a server by the path's own text.
pub data IsLabel (out : Text) : Type 0 where
  template : is_template out ≡ true → IsLabel out
  resource : (seg : Text) → out ≡ codes "/api/v1/servers/:server_id/" ++ seg → IsLabel out

abbrev ServerLabelled : List Text → Text → Type 0
ServerLabelled rest seg = IsLabel (under_server (api (codes ":server_id" ∷ seg ∷ rest)))

server_labelled :
    (rest : List Text) (seg : Text)
    → ServerLabelled rest (codes "zones")
    → (text_eq (codes "zones") seg ≡ false → ServerLabelled rest seg)
    → ServerLabelled rest seg
server_labelled rest seg zones other = elim (Bool-cases (text_eq (codes "zones") seg)) [
  | inl same ↦ subst (ServerLabelled rest) ((text_eq_iff (codes "zones") seg).0 same) zones
  | inr differs ↦ other differs
]

server_0 : IsLabel (under_server (api (codes ":server_id" ∷ [])))
unfolding under_server is_template text_eq join
server_0 = template refl

zones_0 : ServerLabelled [] (codes "zones")
unfolding under_server is_template text_eq join
zones_0 = template refl

zones_1 : (zid : Text) → ServerLabelled (zid ∷ []) (codes "zones")
unfolding under_server is_template text_eq join
zones_1 zid = template refl

zones_more :
    (zid tail : Text) (rest : List Text) → ServerLabelled (zid ∷ tail ∷ rest) (codes "zones")
unfolding under_server
zones_more zid tail rest =
    let e : under_server (api (codes ":server_id" ∷ codes "zones" ∷ zid ∷ tail ∷ rest))
        ≡ zone_tail (zone tail rest) =
      ground (arith, text_eq_refl (codes "zones")) in
    rw e (template (zone_tail_template tail rest))

resource_label : (seg : Text) → text_eq (codes "zones") seg ≡ false → ServerLabelled [] seg
unfolding under_server join
resource_label seg other = rw other (resource seg refl)

resource_deep :
    (seg x : Text) (rest : List Text)
    → text_eq (codes "zones") seg ≡ false
    → ServerLabelled (x ∷ rest) seg
resource_deep seg x rest other =
    let e : under_server (api (codes ":server_id" ∷ seg ∷ x ∷ rest)) ≡ other_path =
      unfold under_server in ground arith in
    rw e (template other_template)

under_server_labelled :
    (rest : List Text) → IsLabel (under_server (api (codes ":server_id" ∷ rest)))
under_server_labelled [] = server_0
under_server_labelled (seg ∷ []) = server_labelled [] seg zones_0 (resource_label seg)
under_server_labelled (seg ∷ zid ∷ []) =
    server_labelled (zid ∷ []) seg (zones_1 zid) (resource_deep seg zid [])
under_server_labelled (seg ∷ zid ∷ tail ∷ rest) =
    server_labelled (zid ∷ tail ∷ rest) seg (zones_more zid tail rest)
      (resource_deep seg zid (tail ∷ rest))

fixed_label : (p : Text) → is_in known_fixed_paths p ≡ true → is_template (b'/' ∷ p) ≡ true
unfolding is_template text_eq
fixed_label p h =
    is_in_cases (λ t. is_in templates (b'/' ∷ t) ≡ true) known_fixed_paths p
      (refl, (refl, (refl, tt))) h

root_template : (is_template (codes "/") ≡ true) × (is_template (codes "/api/v1/servers") ≡ true)
unfolding is_template text_eq
root_template = (refl, refl)

label_api :
    (id : Text) (more : List Text)
    → label (api (id ∷ more)) ≡ under_server (api (codes ":server_id" ∷ more))
unfolding label
label_api id more =
    ground
      (arith, text_eq_refl (codes "api"), text_eq_refl (codes "v1"), text_eq_refl (codes "servers"))

-- A path that is long enough is one of the API, or folds.
api_or_other :
    (a b c : Text) (rest : List Text)
    → (label (a ∷ b ∷ c ∷ rest) ≡ other_path)
      ⊎ ((rest ≡ []) × (label (a ∷ b ∷ c ∷ rest) ≡ codes "/api/v1/servers"))
      ⊎ ((id : Text) × (more : List Text) × (label (a ∷ b ∷ c ∷ rest)
            ≡ under_server (api (codes ":server_id" ∷ more))))
unfolding label
api_or_other a b c [] = ground (arith, text_eq_iff (codes "api") a)
api_or_other a b c (id ∷ more) =
    elim (Bool-cases
      (text_eq (codes "api") a && (text_eq (codes "v1") b && text_eq (codes "servers") c))) [
        | inl is_api ↦
            let parts = &&-eq-true _ _ is_api in
            let later = &&-eq-true _ _ parts.1 in
            let a_api = (text_eq_iff (codes "api") a).0 parts.0 in
            let b_v1 = (text_eq_iff (codes "v1") b).0 later.0 in
            let c_servers = (text_eq_iff (codes "servers") c).0 later.1 in
            inr (inr (id, more, rw (← a_api, ← b_v1, ← c_servers) (label_api id more)))
        | inr no_api ↦ inl (ground arith)
      ]

label_labelled : (parts : List Text) → IsLabel (label parts)
unfolding label
label_labelled [] = template root_template.0
label_labelled (a ∷ []) = elim (Bool-cases (is_in known_fixed_paths a)) [
  | inl fixed ↦ rw fixed (template (fixed_label a fixed))
  | inr no_path ↦ rw no_path (template other_template)
]
label_labelled (a ∷ b ∷ []) = template other_template
label_labelled (a ∷ b ∷ c ∷ rest) = elim (api_or_other a b c rest) [
  | inl folded ↦ rw folded (template other_template)
  | inr (inl (_, servers)) ↦ rw servers (template root_template.1)
  | inr (inr (id, more, e)) ↦ rw e (under_server_labelled more)
]

-- Every path gets one of the seventeen templates, or is labelled with a server's resource.
pub normalize-IsLabel : (path : Text) → IsLabel (normalize path)
unfolding normalize
normalize-IsLabel path = label_labelled (trim_trailing (split b'/' (trim_prefix (codes "/") path)))

-- The resource is not masked: whatever segment stands behind a server's id, not empty, with no slash
-- in it and not `zones`, is itself the end of the label.
pub normalize_unbounded :
    (id seg : Text)
    → contains_byte b'/' id ≡ false
    → text_eq (codes "zones") seg ≡ false
    → text_eq seg [] ≡ false
    → contains_byte b'/' seg ≡ false
    → normalize (codes "/api/v1/servers/" ++ (id ++ b'/' ∷ seg))
      ≡ codes "/api/v1/servers/:server_id/" ++ seg
unfolding normalize label under_server trim_trailing split trim_prefix text_eq join
normalize_unbounded id seg whole zones empty slash = rw (
  split-append b'/' id seg,
  split-no_separator b'/' id whole,
  split-no_separator b'/' seg slash,
  empty,
  zones,
)
