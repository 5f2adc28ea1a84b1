-- ===== src/Manager/Decisions.antt =====
-- Authorize: the decision, whatever the order in which the results arrive.
use pdag.Common.{
  ◌≡◌, ◌↔◌, ◌⊎◌, inl, inr, refl, sym, subst, ◌∙◌, ap, true, false, Text, codes, List, [], ◌∷◌,
  Option, none, some, arith, Option-cases, Bool-cases, lookup, lookup-put, text_eq, text_eq_iff,
  Distinct,
}
use pdag.Breaker.{allow}
use pdag.Manager.{
  PluginInstance, Plugins, Decision, allows, denies, Attempt, call_plugin, Result, result_of, ask,
  ask_all, collect, no_result, authorize, response, decision_allow,
}
use pdag.Manager.Calls.{call_plugin_iff}

decision-cases : (d : Decision) → (d ≡ allows) ⊎ (d ≡ denies)
decision-cases allows = inl refl
decision-cases denies = inr refl

-- One of the results allows.
abbrev pub Allows : List Result → Type 0
Allows [] = ⊥
Allows (r ∷ rs) = (r.decision ≡ allows) ⊎ Allows rs

collect_iff :
    (last : Result) (rs : List Result)
    → last.decision ≡ denies
    → ((collect last rs).decision ≡ allows) ↔ Allows rs
unfolding collect
collect_iff last [] d = (λ h. cc, λ h. absurd h)
collect_iff last (r ∷ rs) d = elim (decision-cases r.decision) [
  | inl e ↦ ground arith
  | inr e ↦ ground (arith, collect_iff r rs e)
]

-- The result that each call would have on its own.
abbrev pub outcomes : Plugins → List (Text × Attempt) → List Result
outcomes plugins [] = []
outcomes plugins ((role, attempt) ∷ calls) = (ask plugins role attempt).1 ∷ outcomes plugins calls

-- The result of a call, from the instance that the map has for the role.
abbrev result_from : Text → Option PluginInstance → Attempt → Result
result_from role none attempt = result_of role (some (denies, codes "plugin not configured"))
result_from role (some inst) attempt = result_of role (call_plugin role inst attempt).answer

ask-result :
    (plugins : Plugins) (role : Text) (attempt : Attempt)
    → (ask plugins role attempt).1 ≡ result_from role (lookup role plugins) attempt
unfolding ask
ask-result plugins role attempt = elim (Option-cases (lookup role plugins)) [
  | inl e ↦ rw (e, ask) refl
  | inr (inst, e) ↦ rw (e, ask) refl
]

lookup-ask :
    (plugins : Plugins) (role j : Text) (attempt : Attempt)
    → text_eq role j ≡ false
    → lookup j (ask plugins role attempt).0 ≡ lookup j plugins
unfolding ask
lookup-ask plugins role j attempt d = elim (Option-cases (lookup role plugins)) [
  | inl e ↦ rw (e, ask) refl
  | inr (inst, e) ↦ rw (e, ask) (rw (lookup-put, d) refl)
]

ask_other :
    (plugins : Plugins) (role j : Text) (attempt other : Attempt)
    → text_eq role j ≡ false
    → (ask (ask plugins role attempt).0 j other).1 ≡ (ask plugins j other).1
ask_other plugins role j attempt other d =
    rw (ask-result, ask-result, lookup-ask plugins role j attempt d) refl

outcomes_unchanged :
    (plugins : Plugins) (role : Text) (attempt : Attempt) (calls : List (Text × Attempt))
    → lookup role calls ≡ none
    → outcomes (ask plugins role attempt).0 calls ≡ outcomes plugins calls
unfolding lookup
outcomes_unchanged plugins role attempt [] h = refl
outcomes_unchanged plugins role attempt ((j, other) ∷ calls) h =
    elim (Bool-cases (text_eq j role)) [
      | inl t ↦ ground arith
      | inr n ↦
          let tail : lookup role calls ≡ none = ground arith in
          let same = text_eq_iff j role in
          let back = text_eq_iff role j in
          let apart : text_eq role j ≡ false = ground arith in
          rw
            (
              ask_other plugins role j attempt other apart,
              outcomes_unchanged plugins role attempt calls tail,
            )
            refl
    ]

ask_all-outcomes :
    (plugins : Plugins) (calls : List (Text × Attempt))
    → Distinct calls
    → (ask_all plugins calls).1 ≡ outcomes plugins calls
unfolding ask_all
ask_all-outcomes plugins [] d = refl
ask_all-outcomes plugins ((role, attempt) ∷ calls) d =
    ap (λ rs. (ask plugins role attempt).1 ∷ rs)
      (ask_all-outcomes (ask plugins role attempt).0 calls d.1
        ∙ outcomes_unchanged plugins role attempt calls d.0)

-- A role has a plugin that has not failed for good, whose breaker admits the call, and which allows.
abbrev pub GetsAllowed : Plugins → Text → Attempt → Type 0
GetsAllowed plugins role attempt =
    (inst : PluginInstance) × (reason : Text) × (lookup role plugins ≡ some inst)
    × (inst.failed ≡ false)
    × ((allow inst.breaker attempt.began).1 ≡ true)
    × (attempt.returned ≡ response decision_allow reason)

abbrev pub SomeAllowed : Plugins → List (Text × Attempt) → Type 0
SomeAllowed plugins [] = ⊥
SomeAllowed plugins ((role, attempt) ∷ calls) =
    GetsAllowed plugins role attempt ⊎ SomeAllowed plugins calls

result_of-allows :
    (role : Text) (answer : Option (Decision × Text))
    → (result_of role answer).decision ≡ allows
    → (reason : Text) × (answer ≡ some (allows, reason))
unfolding result_of
result_of-allows role none h = cc
result_of-allows role (some (allows, reason)) h = (reason, refl)
result_of-allows role (some (denies, reason)) h = cc

result_from_iff :
    (role : Text) (o : Option PluginInstance) (attempt : Attempt)
    → ((result_from role o attempt).decision ≡ allows) ↔ (
        (inst : PluginInstance) × (reason : Text) × (o ≡ some inst)
        × (inst.failed ≡ false)
        × ((allow inst.breaker attempt.began).1 ≡ true)
        × (attempt.returned ≡ response decision_allow reason))
unfolding result_of
result_from_iff role none attempt = (λ h. cc, λ g. let e = g.2 in cc)
result_from_iff role (some inst) attempt = (to, from)
  where
    to :
        (result_from role (some inst) attempt).decision ≡ allows
        → (i : PluginInstance) × (reason : Text) × (some inst ≡ some i)
          × (i.failed ≡ false)
          × ((allow i.breaker attempt.began).1 ≡ true)
          × (attempt.returned ≡ response decision_allow reason)
    to h =
        let (reason, e) = result_of-allows role (call_plugin role inst attempt).answer h in
        let known = (call_plugin_iff role inst attempt reason).0 e in
        (inst, reason, refl, known.0, known.1, known.2)

    from :
        (i : PluginInstance) × (reason : Text) × (some inst ≡ some i)
          × (i.failed ≡ false)
          × ((allow i.breaker attempt.began).1 ≡ true)
          × (attempt.returned ≡ response decision_allow reason)
        → (result_from role (some inst) attempt).decision ≡ allows
    from (i, reason, e, f, a, r) =
        let allowed = (call_plugin_iff role i attempt reason).1 (f, a, r) in
        let same : i ≡ inst = cc in
        let answer : (call_plugin role inst attempt).answer ≡ some (allows, reason) =
          subst (λ k. (call_plugin role k attempt).answer ≡ some (allows, reason)) same allowed in
        ap (λ o. (result_of role o).decision) answer

ask_iff :
    (plugins : Plugins) (role : Text) (attempt : Attempt)
    → ((ask plugins role attempt).1.decision ≡ allows) ↔ GetsAllowed plugins role attempt
ask_iff plugins role attempt =
    rw (ask-result plugins role attempt) (result_from_iff role (lookup role plugins) attempt)

outcomes_iff :
    (plugins : Plugins) (calls : List (Text × Attempt))
    → Allows (outcomes plugins calls) ↔ SomeAllowed plugins calls
outcomes_iff plugins [] = (λ h. h, λ h. h)
outcomes_iff plugins ((role, attempt) ∷ calls) =
    ground (arith, ask_iff plugins role attempt, outcomes_iff plugins calls)

-- With no role twice, Authorize allows exactly if a plugin of one of the roles has not failed for good, has
-- a breaker that admits the call, and allows; the order in which the results arrive does not matter for it.
pub authorize_iff :
    (plugins : Plugins) (calls : List (Text × Attempt))
    → Distinct calls
    → ((authorize plugins calls).1.decision ≡ allows) ↔ SomeAllowed plugins calls
unfolding authorize
authorize_iff plugins [] d = (λ h. cc, λ h. absurd h)
authorize_iff plugins ((role, attempt) ∷ calls) d =
    let all = (role, attempt) ∷ calls in
    let collected = collect_iff no_result (ask_all plugins all).1 refl in
    let alone = outcomes_iff plugins all in
    let same = ask_all-outcomes plugins all d in
    (
      λ h. alone.0 (subst Allows same (collected.0 h)),
      λ g. collected.1 (subst Allows (sym same) (alone.1 g)),
    )
