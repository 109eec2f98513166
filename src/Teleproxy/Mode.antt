-- ===== src/Teleproxy/Mode.antt =====
-- `DetectMode` on what `Render` writes, internal/teleproxy.
use mtproxy_orchestrator.Base.{
  ℕ, String, Bool, true, false, not, ◌&&◌, ◌||◌, Option, none, some, List, [], ◌∷◌, ◌++◌, str_eq,
  if◌then◌else◌, ◌==◌, ◌≡◌, refl, ap, ◌∙◌, inl, inr, arith, All, Bool-cases,
}
use mtproxy_orchestrator.Bridge.Host.{UserEntry, TeleproxyConfig}
use mtproxy_orchestrator.Update.Text.{Text, codes, contains, after_prefix, is_some}
use mtproxy_orchestrator.Update.Versions.Decimal.{decimal, IsDigits, IsDigits-decimal}
use mtproxy_orchestrator.Teleproxy.{
  domain_name, bool_text, users_text, stats_text, socks_text, domain_text, render, detect_mode,
}

-- A field of the file without a space in it.
abbrev pub IsPlain : Text → Type 0
IsPlain s = All (λ c. (c == b' ') ≡ false) s

abbrev pub is_plain : Text → Bool
is_plain [] = true
is_plain (c ∷ s) = not (c == b' ') && is_plain s

pub is_plain-IsPlain : (s : Text) → is_plain s ≡ true → IsPlain s
is_plain-IsPlain [] h = tt
is_plain-IsPlain (c ∷ s) h = elim (Bool-cases (c == b' ')) [
  | inl e ↦ cc (rw e at h)
  | inr e ↦ (e, is_plain-IsPlain s (rw e at h))
]

-- A pattern with a space does not begin within a plain field that a quote ends.
after_prefix-IsPlain :
    (w q f t : Text)
    → All (λ c. (c == b'"') ≡ false) w
    → IsPlain f
    → after_prefix (w ++ (b' ' ∷ q)) (f ++ (b'"' ∷ t)) ≡ none
after_prefix-IsPlain [] q [] t hw hf = refl
after_prefix-IsPlain [] q (c ∷ f) t hw hf = ground (arith, hf.0)
after_prefix-IsPlain (x ∷ w) q [] t hw hf = ground (arith, hw.0)
after_prefix-IsPlain (x ∷ w) q (c ∷ f) t hw hf =
    ground (arith, after_prefix-IsPlain w q f t hw.1 hf.1)

abbrev mark : Text
mark = codes "socks5 = \""

contains-IsPlain : (f t : Text) → IsPlain f → contains mark (f ++ (b'"' ∷ t)) ≡ contains mark t
contains-IsPlain [] t h = refl
contains-IsPlain (c ∷ f) t h =
    let away =
      after_prefix-IsPlain (codes "socks5") (codes "= \"") (c ∷ f) t
        (refl, (refl, (refl, (refl, (refl, (refl, tt)))))) h in
    ap (λ o. is_some o || contains mark (f ++ (b'"' ∷ t))) away ∙ contains-IsPlain f t h.1

after_prefix-other : (x c : ℕ) (p s : Text) → (x == c) ≡ false → after_prefix (x ∷ p) (c ∷ s) ≡ none
after_prefix-other x c p s h = ground (arith, h)

contains-IsDigits : (d t : Text) → IsDigits d → contains mark (d ++ t) ≡ contains mark t
contains-IsDigits [] t h = refl
contains-IsDigits (c ∷ d) t h =
    let other : (b's' == c) ≡ false = ground (arith, h.0) in
    ap (λ o. is_some o || contains mark (d ++ t))
      (after_prefix-other b's' c (codes "ocks5 = \"") (d ++ t) other)
    ∙ contains-IsDigits d t h.1

-- The fields that the template puts between quotes have no space in them.
abbrev pub IsPlainUser : UserEntry → Type 0
IsPlainUser u = IsPlain (codes u.secret) × IsPlain (codes u.label)

contains-users_text :
    (us : List UserEntry) → All IsPlainUser us → contains mark (users_text us) ≡ false
unfolding users_text
contains-users_text [] h = refl
contains-users_text (u ∷ us) ((secret, label), h) =
    contains-IsPlain (codes u.secret)
      (codes "\nlabel = \"" ++ (codes u.label ++ (codes "\"\n" ++ users_text us))) secret
    ∙ contains-IsPlain (codes u.label) (codes "\n" ++ users_text us) label
    ∙ contains-users_text us h

contains-stats_text :
    (ja4 : Bool) (rest : Text)
    → contains mark rest ≡ false
    → contains mark (stats_text ja4 rest) ≡ false
unfolding stats_text
contains-stats_text true rest h = h
contains-stats_text false rest h = h

contains-socks_text :
    (addr : String) (rest : Text)
    → contains mark rest ≡ false
    → contains mark (socks_text addr rest) ≡ (if str_eq addr "" then false else true)
unfolding socks_text
contains-socks_text addr rest h = elim (Bool-cases (str_eq addr "")) [
  | inl e ↦ rw e h
  | inr e ↦ rw e refl
]

contains-domain_text :
    (domain backend : String) (rest : Text)
    → IsPlain (codes domain)
    → IsPlain (codes backend)
    → contains mark (domain_text domain backend rest) ≡ contains mark rest
unfolding domain_text
contains-domain_text domain backend rest d b = elim (Bool-cases (str_eq backend "")) [
  | inl e ↦ rw e (contains-IsPlain (codes domain) rest d)
  | inr e ↦ rw e (
      contains-IsPlain (codes domain)
        (codes ", backend = \"" ++ (codes backend ++ (codes "\" }]" ++ rest))) d
      ∙ contains-IsPlain (codes backend) (codes " }]" ++ rest) b)
]

contains-bool_text :
    (b : Bool) (rest : Text) → contains mark (bool_text b ++ rest) ≡ contains mark rest
contains-bool_text true rest = refl
contains-bool_text false rest = refl

-- The quoted fields of a configuration.
pub record IsQuotable (c : TeleproxyConfig) : Type 0 where
  pub domain : IsPlain (codes (domain_name c))
  pub backend : IsPlain (codes c.tls_backend)
  pub users : All IsPlainUser c.users

-- The mode that `DetectMode` reads in a file that `Render` wrote, of fields without a space between
-- its quotes, is the mode that was written: Bridge with a SOCKS5 address, and Single without one.
pub detect_mode-render :
    (c : TeleproxyConfig)
    → IsQuotable c
    → detect_mode (some (render c)) ≡ some (if str_eq c.socks5_addr "" then "single" else "bridge")
unfolding detect_mode render
detect_mode-render c ok =
    let tail = codes "\n" ++ users_text c.users in
    let stats = stats_text c.ja4_log tail in
    let socks = socks_text c.socks5_addr stats in
    let domain = domain_text (domain_name c) c.tls_backend socks in
    let clamp =
      bool_text c.mss_clamp
      ++ (codes "\ndc_probe_interval = 60\ndrain_timeout_secs = 60" ++ domain) in
    let scan =
      contains-IsDigits (decimal c.port)
        (codes "\nstats_port = "
          ++ (decimal c.stats_port
              ++ (codes "\nhttp_stats = true\ndirect = true\nmss_clamp = " ++ clamp)))
        (IsDigits-decimal c.port)
      ∙ contains-IsDigits (decimal c.stats_port)
          (codes "\nhttp_stats = true\ndirect = true\nmss_clamp = " ++ clamp)
          (IsDigits-decimal c.stats_port)
      ∙ contains-bool_text c.mss_clamp
          (codes "\ndc_probe_interval = 60\ndrain_timeout_secs = 60" ++ domain)
      ∙ contains-domain_text (domain_name c) c.tls_backend socks ok.domain ok.backend
      ∙ contains-socks_text c.socks5_addr stats
          (contains-stats_text c.ja4_log tail (contains-users_text c.users ok.users)) in
    ap (λ b. some (if b then "bridge" else "single")) scan ∙ modes (str_eq c.socks5_addr "")
  where
    modes :
        (b : Bool)
        → ◌≡◌ {A = Option String}
            (some (if (if b then false else true) then "bridge" else "single"))
            (some (if b then "single" else "bridge"))
    modes true = refl
    modes false = refl
