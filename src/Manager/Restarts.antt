-- ===== src/Manager/Restarts.antt =====
-- swapPlugin, restartPlugin and Close. A restart changes the manager only at its end: restart_plugin
-- runs the loop over the backoff and gives the event in which it ends, and events of several restarts
-- and calls come in any order. Killed clients are kept, the latest first.
use pdag.Common.{
  ℕ, zero, suc, ◌+◌, ◌<◌, ◌≡◌, ◌↔◌, length, subst, refl, sym, Bool, true, Text, codes, List, [],
  ◌∷◌, ◌++◌, Option, none, some, arith, if◌then◌else◌, lookup, put, lookup-put, text_eq,
}
use pdag.Breaker.{new_circuit_breaker}
use pdag.Manager.{
  PluginConfig, PluginInstance, Plugins, Attempt, ask, ask_all, call_plugin, authorize, denial,
}

pub record Manager : Type 0 where
  pub plugins : Plugins
  pub closed : Bool
  pub killed : List ℕ

-- What one round of a restart meets: Close, an error of startPlugin, or a new instance.
pub data Round : Type 0 where
  shut_down start_fails : Round
  starts : PluginInstance → Round

pub data Event : Type 0 where
  authorizes : List (Text × Attempt) → Event
  installs : Text → PluginInstance → Event
  exhausts : Text → Event
  closes : Event

-- The delays in seconds.
abbrev pub backoff : List ℕ
backoff = 1 ∷ 2 ∷ 5 ∷ 10 ∷ 30 ∷ []

abbrev pub fresh : Text → PluginConfig → PluginInstance → PluginInstance
fresh name pc inst = record inst {
  breaker = new_circuit_breaker name pc.failure_threshold pc.success_threshold pc.cooldown;
}

abbrev end_round : Text → PluginConfig → Option Event → Round → Option Event
end_round name pc rest shut_down = none
end_round name pc rest start_fails = rest
end_round name pc rest (starts inst) = some (installs name (fresh name pc inst))

-- The loop of restartPlugin, from one attempt on: the event in which it ends, `none` if it is canceled.
unfoldable pub restart_from : Text → PluginConfig → (ℕ → Round) → ℕ → List ℕ → Option Event
restart_from name pc rounds attempt [] = some (exhausts name)
restart_from name pc rounds attempt (delay ∷ delays) =
    let rest = restart_from name pc rounds (attempt + 1) delays in
    end_round name pc rest (rounds attempt)

unfoldable pub restart_plugin : Text → PluginConfig → (ℕ → Round) → Option Event
unfolding restart_from
restart_plugin name pc rounds = restart_from name pc rounds 0 backoff

abbrev pub kill_old : Option PluginInstance → List ℕ → List ℕ
kill_old none killed = killed
kill_old (some old) killed = old.client ∷ killed

-- swapPlugin, and the kill of the instance that it returns.
unfoldable pub swap_plugin : Manager → Text → PluginInstance → Manager
swap_plugin m name inst = record m {
  plugins = put name inst m.plugins;
  killed = kill_old (lookup name m.plugins) m.killed;
}

-- The end of restartPlugin.
unfoldable pub mark_failed : Manager → Text → Manager
mark_failed m name = elim (lookup name m.plugins) [
  | none ↦ m
  | some inst ↦ record m { plugins = put name (record inst { failed = true }) m.plugins }
]

abbrev clients : Plugins → List ℕ
clients [] = []
clients ((name, inst) ∷ plugins) = inst.client ∷ clients plugins

unfoldable pub close : Manager → Manager
close m = record { plugins = []; closed = true; killed = clients m.plugins ++ m.killed }

unfoldable pub step : Manager → Event → Manager
unfolding swap_plugin mark_failed close
step m (authorizes calls) = record m { plugins = (authorize m.plugins calls).0 }
step m (installs name inst) =
    if m.closed then record m { killed = inst.client ∷ m.killed } else swap_plugin m name inst
step m (exhausts name) = mark_failed m name
step m closes = close m

unfoldable pub run_events : Manager → List Event → Manager
run_events m [] = m
run_events m (e ∷ es) = run_events (step m e) es

ask_all-empty : (calls : List (Text × Attempt)) → (ask_all [] calls).0 ≡ []
unfolding ask_all ask lookup
ask_all-empty [] = refl
ask_all-empty (c ∷ calls) = ask_all-empty calls

authorize-empty : (calls : List (Text × Attempt)) → (authorize [] calls).0 ≡ []
unfolding authorize
authorize-empty [] = refl
authorize-empty (c ∷ calls) = ask_all-empty (c ∷ calls)

zero_add : (n : ℕ) → 0 + n ≡ n
zero_add n = omega arith

shifted : (first i : ℕ) → first + suc i ≡ (first + 1) + i
shifted first i = omega arith

-- The manager is closed and has no plugin.
abbrev pub IsShut : Manager → Type 0
IsShut m = (m.closed ≡ true) × (m.plugins ≡ [])

step-IsShut : (m : Manager) (e : Event) → IsShut m → IsShut (step m e)
unfolding step lookup
step-IsShut m (authorizes calls) (c, p) = (c, rw p (authorize-empty calls))
step-IsShut m (installs name inst) (c, p) = ground arith
step-IsShut m (exhausts name) (c, p) = rw (p, mark_failed) (c, p)
step-IsShut m closes h = (refl, refl)

run_events-IsShut : (m : Manager) (es : List Event) → IsShut m → IsShut (run_events m es)
unfolding run_events
run_events-IsShut m [] h = h
run_events-IsShut m (e ∷ es) h = run_events-IsShut (step m e) es (step-IsShut m e h)

-- After Close no plugin comes back, whatever restarts were under way and whatever requests arrive.
pub close_is_final :
    (m : Manager) (es : List Event)
    → ((run_events (step m closes) es).plugins ≡ [])
      × ((run_events (step m closes) es).closed ≡ true)
unfolding step
close_is_final m es = let shut = run_events-IsShut (close m) es (refl, refl) in (shut.1, shut.0)

end_round_iff :
    (name : Text) (pc : PluginConfig) (rest : Option Event) (round : Round)
    → (end_round name pc rest round ≡ some (exhausts name))
      ↔ ((round ≡ start_fails) × (rest ≡ some (exhausts name)))
end_round_iff name pc rest shut_down = (λ h. cc, λ p. let e = p.0 in cc)
end_round_iff name pc rest start_fails = (λ h. (refl, h), λ p. p.1)
end_round_iff name pc rest (starts inst) = (λ h. cc, λ p. let e = p.0 in cc)

-- All rounds from one on, up to a number of them, fail.
abbrev FailFrom : (ℕ → Round) → ℕ → ℕ → Type 0
FailFrom rounds first n = (i : ℕ) → i < n → rounds (first + i) ≡ start_fails

FailFrom-suc :
    (rounds : ℕ → Round) (first n : ℕ)
    → rounds first ≡ start_fails
    → FailFrom rounds (first + 1) n
    → FailFrom rounds first (suc n)
FailFrom-suc rounds first n h hs zero l =
    let same : first ≡ first + 0 = omega arith in subst (λ k. rounds k ≡ start_fails) same h
FailFrom-suc rounds first n h hs (suc i) l =
    subst (λ k. rounds k ≡ start_fails) (sym (shifted first i)) (hs i (omega (arith, l)))

FailFrom-tail :
    (rounds : ℕ → Round) (first n : ℕ)
    → FailFrom rounds first (suc n)
    → (rounds first ≡ start_fails) × FailFrom rounds (first + 1) n
FailFrom-tail rounds first n h =
    let same : first + 0 ≡ first = omega arith in
    (
      subst (λ k. rounds k ≡ start_fails) same (h 0 (omega arith)),
      λ i l. subst (λ k. rounds k ≡ start_fails) (shifted first i) (h (suc i) (omega (arith, l))),
    )

restart_from_iff :
    (name : Text) (pc : PluginConfig) (rounds : ℕ → Round) (first : ℕ) (delays : List ℕ)
    → (restart_from name pc rounds first delays ≡ some (exhausts name))
      ↔ FailFrom rounds first (length delays)
unfolding restart_from
restart_from_iff name pc rounds first [] = (λ h i l. ground arith, λ h. refl)
restart_from_iff name pc rounds first (delay ∷ delays) =
    let later = restart_from_iff name pc rounds (first + 1) delays in
    let here =
      end_round_iff name pc (restart_from name pc rounds (first + 1) delays) (rounds first) in
    let n = length delays in
    (
      λ h. let both = here.0 h in FailFrom-suc rounds first n both.0 (later.0 both.1),
      λ h. let both = FailFrom-tail rounds first n h in here.1 (both.0, later.1 both.1),
    )

-- A restart ends in marking the plugin as failed for good exactly if all five attempts fail to start it.
pub restart_exhausts :
    (name : Text) (pc : PluginConfig) (rounds : ℕ → Round)
    → (restart_plugin name pc rounds ≡ some (exhausts name))
      ↔ ((attempt : ℕ) → attempt < 5 → rounds attempt ≡ start_fails)
unfolding restart_plugin
restart_exhausts name pc rounds =
    let all = restart_from_iff name pc rounds 0 backoff in
    (
      λ h i l. subst (λ k. rounds k ≡ start_fails) (zero_add i) (all.0 h i l),
      λ h. all.1 (λ i l. subst (λ k. rounds k ≡ start_fails) (sym (zero_add i)) (h i l)),
    )

-- What a plugin that is marked as failed for good answers: every call denies, changes nothing and starts
-- no restart. Marking leaves all other plugins as they are.
pub mark_failed_lem :
    (m : Manager) (name j : Text) (inst : PluginInstance) (attempt : Attempt)
    → lookup name m.plugins ≡ some inst
    → (lookup j (step m (exhausts name)).plugins
        ≡ (if text_eq name j then some (record inst { failed = true }) else lookup j m.plugins))
      × (call_plugin name (record inst { failed = true }) attempt
          ≡ denial (record inst { failed = true }) (codes "plugin permanently failed: " ++ name))
unfolding step call_plugin denial
mark_failed_lem m name j inst attempt e = (rw (e, mark_failed) (rw lookup-put refl), refl)

-- A restart whose first attempt starts the plugin puts the new instance under the plugin's name, with a
-- closed breaker whose counters are 0, leaves the other plugins as they are, and kills the client that it
-- replaces, if there is one; after Close it changes no plugin, and kills the client that it has started.
pub restart_lem :
    (m : Manager) (name j : Text) (pc : PluginConfig) (rounds : ℕ → Round) (inst : PluginInstance)
    → rounds 0 ≡ starts inst
    → (e : Event) × ((restart_plugin name pc rounds ≡ some e)
        × (lookup j (step m e).plugins ≡ (
            if m.closed
            then lookup j m.plugins
            else if text_eq name j
            then some (fresh name pc inst)
            else lookup j m.plugins))
        × ((step m e).killed ≡ (
            if m.closed
            then inst.client ∷ m.killed
            else kill_old (lookup name m.plugins) m.killed)))
unfolding step restart_plugin
restart_lem m name j pc rounds inst r = (
  installs name (fresh name pc inst),
  (rw r refl, ground (arith, lookup-put name j (fresh name pc inst) m.plugins), ground arith),
)
