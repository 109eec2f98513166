-- ===== src/Bridge/Switch/Effects.antt =====
-- What single calls of internal/bridge/service.go on the machine set and leave alone.
use mtproxy_orchestrator.Base.{
  ℕ, Bool, true, false, Option, some, ◌==◌, ◌≡◌, refl, sym, ap, inl, inr, Bool-cases, arith, subst,
}
use mtproxy_orchestrator.Bridge.Host.{
  Env, Host, Action, file_index, same_unit, File, FileName, UnitName, Bytes, singbox, teleproxy,
  put, flag, write_file, set_enabled, set_running, service_active,
}
use mtproxy_orchestrator.Bridge.Switch.Steps.{Sets, Keeps, contents, Holds, IsRunning, IsEnabled}

put-same : (n : FileName) (x : Option File) (d : FileName → Option File) → put n x d n ≡ x
unfolding put file_index
put-same n x d = let same : (file_index n == file_index n) ≡ true = ground arith in rw same refl

module _ (env : Env) where
  pub write_file-Sets :
      (name : FileName) (b : Bytes) (m : ℕ) → Sets (Holds name (some b)) (write_file env name b m)
  unfolding write_file
  write_file-Sets name b m h e = elim (Bool-cases (env.fails h.calls)) [
    | inl f ↦ absurd (ground (arith))
    | inr f ↦ rw f (ap contents (put-same name _ h.disk))
  ]

  pub set_running-Sets : (u : UnitName) (b : Bool) → Sets (IsRunning u b) (set_running env u b)
  unfolding set_running flag same_unit
  set_running-Sets singbox b h e = ground arith
  set_running-Sets teleproxy b h e = ground arith

  pub set_enabled-Sets : (u : UnitName) (b : Bool) → Sets (IsEnabled u b) (set_enabled env u b)
  unfolding set_enabled flag same_unit
  set_enabled-Sets singbox b h e = ground arith
  set_enabled-Sets teleproxy b h e = ground arith

  pub service_active-Sets : (u : UnitName) → Sets (IsRunning u true) (service_active env u)
  unfolding service_active
  service_active-Sets u h e = ground arith

  pub set_running-disk :
      (u : UnitName) (b : Bool) (h : Host) → (set_running env u b h).1.disk ≡ h.disk
  unfolding set_running
  set_running-disk u b h = elim (Bool-cases (env.fails h.calls)) [
    | inl f ↦ rw f refl
    | inr f ↦ rw f refl
  ]

  pub set_enabled-disk :
      (u : UnitName) (b : Bool) (h : Host) → (set_enabled env u b h).1.disk ≡ h.disk
  unfolding set_enabled
  set_enabled-disk u b h = elim (Bool-cases (env.fails h.calls)) [
    | inl f ↦ rw f refl
    | inr f ↦ rw f refl
  ]

  pub service_active-disk : (u : UnitName) (h : Host) → (service_active env u h).1.disk ≡ h.disk
  unfolding service_active
  service_active-disk u h = refl

  pub write_file-enabled :
      (n : FileName) (b : Bytes) (m : ℕ) (h : Host) → (write_file env n b m h).1.enabled ≡ h.enabled
  unfolding write_file
  write_file-enabled n b m h = elim (Bool-cases (env.fails h.calls)) [
    | inl f ↦ rw f refl
    | inr f ↦ rw f refl
  ]

  pub set_running-enabled :
      (u : UnitName) (b : Bool) (h : Host) → (set_running env u b h).1.enabled ≡ h.enabled
  unfolding set_running
  set_running-enabled u b h = elim (Bool-cases (env.fails h.calls)) [
    | inl f ↦ rw f refl
    | inr f ↦ rw f refl
  ]

  pub service_active-enabled :
      (u : UnitName) (h : Host) → (service_active env u h).1.enabled ≡ h.enabled
  unfolding service_active
  service_active-enabled u h = refl

  pub Keeps-disk :
      (a : Action) (n : FileName) (x : Option Bytes)
      → ((h : Host) → (a h).1.disk ≡ h.disk)
      → Keeps (Holds n x) a
  Keeps-disk a n x same h e p = subst (λ d. contents (d n) ≡ x) (sym (same h)) p

  pub Keeps-enabled :
      (a : Action) (u : UnitName) (b : Bool)
      → ((h : Host) → (a h).1.enabled ≡ h.enabled)
      → Keeps (IsEnabled u b) a
  Keeps-enabled a u b same h e p = subst (λ d. d u ≡ b) (sym (same h)) p

  -- A check of a unit keeps a unit down that is down.
  pub stays_down : (u v : UnitName) → Keeps (IsRunning u false) (service_active env v)
  unfolding service_active
  stays_down u v h e p = rw p refl

  pub teleproxy_up : Keeps (IsRunning singbox false) (set_running env teleproxy true)
  unfolding set_running flag same_unit
  teleproxy_up h e p = ground arith

  pub disabled_down : Keeps (IsRunning singbox false) (set_enabled env singbox false)
  unfolding set_enabled
  disabled_down h e p = ground arith
