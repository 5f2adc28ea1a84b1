-- ===== src/Authz/Redaction.antt =====
-- What the plugins learn, and which requests pass.
use pdag.Common.{
  ◌≡◌, ◌≢◌, ◌↔◌, ◌⊎◌, inl, inr, refl, sym, ◌∙◌, ap, true, Text, codes, text_eq_iff, List, [], ◌∷◌,
  arith, is_empty, if◌then◌else◌, Bool-cases, if-false,
}
use pdag.Header.{Header, canonical_header_key}
use pdag.Manager.{allows, Result, no_roles}
use pdag.Authz.{
  Request, HttpRequest, Context, next, stdlib_to_http_request, is_sensitive, redacted, redact,
  plugin_request, serve_http,
}

-- The four names whose values are nobody's business, in any spelling.
abbrev pub IsSecret : Text → Type 0
IsSecret key =
    (canonical_header_key key ≡ codes "X-Api-Key")
    ⊎ (canonical_header_key key ≡ codes "Authorization")
    ⊎ (canonical_header_key key ≡ codes "Cookie")
    ⊎ (canonical_header_key key ≡ codes "Proxy-Authorization")

-- The same names in the same order, with the same values but for the secret names.
abbrev pub SameButSecrets : Header → Header → Type 0
SameButSecrets [] [] = Unit
SameButSecrets ((k, vs) ∷ h) ((j, ws) ∷ i) = (k ≡ j) × (IsSecret k ⊎ (vs ≡ ws)) × SameButSecrets h i
SameButSecrets _ _ = ⊥

is_sensitive_iff : (key : Text) → (is_sensitive key ≡ true) ↔ IsSecret key
unfolding is_sensitive
is_sensitive_iff key =
    let c = canonical_header_key key in
    let a = text_eq_iff (codes "X-Api-Key") c in
    let b = text_eq_iff (codes "Authorization") c in
    let d = text_eq_iff (codes "Cookie") c in
    let e = text_eq_iff (codes "Proxy-Authorization") c in (ground arith, ground arith)

-- A header as redact leaves it.
abbrev shown : Text × List Text → Text × List Text
shown (key, values) = (key, (if is_sensitive key then redacted else values))

shown_iff :
    (k j : Text) (vs ws : List Text)
    → (shown (k, vs) ≡ shown (j, ws)) ↔ ((k ≡ j) × (IsSecret k ⊎ (vs ≡ ws)))
shown_iff k j vs ws =
    let s = is_sensitive_iff k in
    (
      λ e.
          (let same : k ≡ j = ap (λ p. p.0) e in
            let values = ap (λ p. p.1) e in
            let there : is_sensitive k ≡ is_sensitive j = ap is_sensitive same in
            (
              same,
              elim (Bool-cases (is_sensitive k)) [
                | inl t ↦ inl (s.0 t)
                | inr f ↦ inr (
                    sym (if-false _ redacted vs f)
                    ∙ values
                    ∙ if-false _ redacted ws (sym there ∙ f))
              ],
            )),
      λ p. (elim p.1 [
        | inl secret ↦
            (let t = s.1 secret in
              let u : is_sensitive j ≡ true = ap is_sensitive (sym p.0) ∙ t in rw (t, u, p.0) refl)
        | inr values ↦ rw (p.0, values) refl
      ]),
    )

cons-injective : (p q : Text × List Text) (h i : Header) → p ∷ h ≡ q ∷ i → (p ≡ q) × (h ≡ i)
cons-injective p q h i e = (cc, cc)

redact_iff : (h i : Header) → (redact h ≡ redact i) ↔ SameButSecrets h i
unfolding redact
redact_iff [] [] = (λ e. tt, λ s. refl)
redact_iff [] (x ∷ i) = (λ e. cc, λ s. absurd s)
redact_iff (x ∷ h) [] = (λ e. cc, λ s. absurd s)
redact_iff ((k, vs) ∷ h) ((j, ws) ∷ i) =
    let rest = redact_iff h i in
    let one = shown_iff k j vs ws in
    (
      λ e. (let p = cons-injective _ _ _ _ e in let q = one.0 p.0 in (q.0, q.1, rest.0 p.1)),
      λ s. rw (one.1 (s.0, s.1), rest.1 s.2) refl,
    )

-- The result of the middleware for what the plugins see.
abbrev result_for : (List Text → HttpRequest → Result) → Context → HttpRequest → Result
result_for authorize ctx req = if is_empty ctx.roles then no_roles else authorize ctx.roles req

result-serve_http :
    (authorize : List Text → HttpRequest → Result) (ctx : Context) (r : Request)
    → (serve_http authorize ctx r).0 ≡ result_for authorize ctx (plugin_request ctx r)
unfolding serve_http
result-serve_http authorize ctx r = ground arith

-- A request passes, as it came, exactly if its principal has a role and the authorizer allows what it is
-- given of it; any other is answered with an error, and the result that the audit gets is a denial.
pub authz_iff :
    (authorize : List Text → HttpRequest → Result) (ctx : Context) (r passed : Request)
    → (((serve_http authorize ctx r).1 ≡ next passed) ↔ (
        (passed ≡ r)
        × (ctx.roles ≢ [])
        × ((authorize ctx.roles (plugin_request ctx r)).decision ≡ allows)))
      × (((serve_http authorize ctx r).1 ≡ next r)
          ↔ ((serve_http authorize ctx r).0.decision ≡ allows))
unfolding serve_http
authz_iff authorize ctx r passed =
    let result = authorize ctx.roles (plugin_request ctx r) in (ground arith, ground arith)

-- Two requests that differ in their headers alone are the same to the plugins exactly if they have the same
-- header names in the same order, and the same values, but for those of X-Api-Key, Authorization, Cookie and
-- Proxy-Authorization, in any spelling.
pub redaction_iff :
    (ctx : Context) (r : Request) (other : Header)
    → (plugin_request ctx r ≡ plugin_request ctx (record r { header = other }))
      ↔ SameButSecrets r.header other
unfolding plugin_request stdlib_to_http_request
redaction_iff ctx r other = (
  λ e. (redact_iff r.header other).0 (ap (λ q. q.headers) e),
  λ s. rw ((redact_iff r.header other).1 s, plugin_request) refl,
)

-- The plugins learn nothing from the secret headers: two requests that differ in their values alone are
-- the same to every authorizer, have the same result, and both pass or neither does.
pub redaction_hides :
    (authorize : List Text → HttpRequest → Result) (ctx : Context) (r : Request) (other : Header)
    → SameButSecrets r.header other
    → (plugin_request ctx r ≡ plugin_request ctx (record r { header = other }))
      × ((serve_http authorize ctx r).0
          ≡ (serve_http authorize ctx (record r { header = other })).0)
      × (((serve_http authorize ctx r).1 ≡ next r) ↔ (
          (serve_http authorize ctx (record r { header = other })).1
          ≡ next (record r { header = other })))
unfolding plugin_request stdlib_to_http_request
redaction_hides authorize ctx r other s =
    let hidden = record r { header = other } in
    let message = (redaction_iff ctx r other).1 s in
    let result =
      result-serve_http authorize ctx r
      ∙ ap (result_for authorize ctx) message
      ∙ sym (result-serve_http authorize ctx hidden) in
    let passes = (authz_iff authorize ctx r r).1 in
    let hidden_passes = (authz_iff authorize ctx hidden hidden).1 in
    (
      message,
      result,
      (
        (λ h. hidden_passes.1 (ap (λ x. x.decision) (sym result) ∙ passes.0 h)),
        λ h. passes.1 (ap (λ x. x.decision) result ∙ hidden_passes.0 h),
      ),
    )
