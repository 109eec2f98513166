-- ===== src/Bridge/Switch/Steps.antt =====
-- Sequences of steps: what holds at their end when every step succeeds.
use mtproxy_orchestrator.Base.{
  Bool, true, Option, none, some, List, [], ◌∷◌, ◌≡◌, refl, sym, inl, inr, Bool-cases, All, arith,
  subst,
}
use mtproxy_orchestrator.Bridge.Host.{Host, Action, File, FileName, UnitName, Bytes}
use mtproxy_orchestrator.Bridge.Plan.{Step, run_steps, run_all}

abbrev pub Sets : (Host → Type 0) → Action → Type 0
Sets P a = (h : Host) → (a h).0 ≡ true → P (a h).1

abbrev pub Keeps : (Host → Type 0) → Action → Type 0
Keeps P a = (h : Host) → (a h).0 ≡ true → P h → P (a h).1

-- Some step makes `P` true, and all behind it keep it.
pub data Reaches (P : Host → Type 0) : List Step → Type 0 where
  here :
      {s : Step} {ss : List Step} → Sets P s.act → All (λ t. Keeps P t.act) ss → Reaches P (s ∷ ss)
  there : {s : Step} {ss : List Step} → Reaches P ss → Reaches P (s ∷ ss)

run_steps-true :
    (s : Step) (ss : List Step) (h : Host)
    → (run_steps (s ∷ ss) h).0 ≡ none
    → ((s.act h).0 ≡ true)
      × (((run_steps ss (s.act h).1).0 ≡ none)
          × ((run_steps (s ∷ ss) h).1 ≡ (run_steps ss (s.act h).1).1))
unfolding run_steps
run_steps-true s ss h done = elim (Bool-cases (s.act h).0) [
  | inl e ↦ (e, (ground (arith), ground (arith)))
  | inr e ↦ absurd (ground (arith))
]

pub run_steps-Keeps :
    (P : Host → Type 0) (ss : List Step) (h : Host)
    → All (λ t. Keeps P t.act) ss
    → (run_steps ss h).0 ≡ none
    → P h
    → P (run_steps ss h).1
unfolding run_steps
run_steps-Keeps P [] h keeps e p = p
run_steps-Keeps P (s ∷ ss) h (k, ks) e p =
    let (now, (later, ends)) = run_steps-true s ss h e in
    subst P (sym ends) (run_steps-Keeps P ss (s.act h).1 ks later (k h now p))

pub run_steps-Reaches :
    (P : Host → Type 0) (ss : List Step) (h : Host)
    → Reaches P ss
    → (run_steps ss h).0 ≡ none
    → P (run_steps ss h).1
run_steps-Reaches P [] h r e = elim r [ ]
run_steps-Reaches P (s ∷ ss) h (here sets keeps) e =
    let (now, (later, ends)) = run_steps-true s ss h e in
    subst P (sym ends) (run_steps-Keeps P ss (s.act h).1 keeps later (sets h now))
run_steps-Reaches P (s ∷ ss) h (there r) e =
    let (now, (later, ends)) = run_steps-true s ss h e in
    subst P (sym ends) (run_steps-Reaches P ss (s.act h).1 r later)

-- Without errors, running all steps is running them up to the first error.
pub run_all-run_steps :
    (ss : List Step) (h : Host)
    → (run_all ss h).0 ≡ []
    → ((run_steps ss h).0 ≡ none) × ((run_all ss h).1 ≡ (run_steps ss h).1)
unfolding run_all run_steps
run_all-run_steps [] h e = (refl, refl)
run_all-run_steps (s ∷ ss) h e = elim (Bool-cases (s.act h).0) [
  | inl now ↦
      let rest : (run_all ss (s.act h).1).0 ≡ [] = ground (arith) in
      let (a, b) = run_all-run_steps ss (s.act h).1 rest in (ground (arith), ground (arith))
  | inr now ↦ absurd (ground (arith))
]

abbrev pub contents : Option File → Option Bytes
contents none = none
contents (some f) = some f.content

-- What a file holds, and the state of a unit.
abbrev pub Holds : FileName → Option Bytes → Host → Type 0
Holds name b h = contents (h.disk name) ≡ b

abbrev pub IsRunning : UnitName → Bool → Host → Type 0
IsRunning u b h = h.running u ≡ b

abbrev pub IsEnabled : UnitName → Bool → Host → Type 0
IsEnabled u b h = h.enabled u ≡ b
