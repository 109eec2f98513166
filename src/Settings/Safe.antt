-- ===== src/Settings/Safe.antt =====
-- What the validations of internal/panel/proxy_settings.go keep out of teleproxy.toml, whose template
-- in internal/teleproxy/config.go puts the values between quotes as they are.
use mtproxy_orchestrator.Base.{
  ℕ, Bool, true, ◌||◌, List, [], ◌∷◌, ◌==◌, ◌≡◌, inl, inr, arith, All, Bool-cases,
}
use mtproxy_orchestrator.Update.Text.{Text, split, put_first}
use mtproxy_orchestrator.Settings.Validation.{all, is_label_byte, all_labels, is_valid_mask_host}

-- A byte of a host name: a letter, a digit, a hyphen or a dot.
abbrev pub is_host_byte : ℕ → Bool
is_host_byte c = is_label_byte c || c == b'.'

abbrev pub IsHostText : Text → Type 0
IsHostText s = All (λ c. is_host_byte c ≡ true) s

all-All : (p : ℕ → Bool) (s : Text) → all p s ≡ true → All (λ c. p c ≡ true) s
all-All p [] h = tt
all-All p (c ∷ s) h = elim (Bool-cases (p c)) [
  | inl e ↦ (e, all-All p s (rw e at h))
  | inr e ↦ cc (rw e at h)
]

all_labels-All :
    (ls : List Text) → all_labels ls ≡ true → All (λ l. All (λ c. is_label_byte c ≡ true) l) ls
all_labels-All [] h = tt
all_labels-All (l ∷ ls) h =
    let body : all is_label_byte l ≡ true = ground (arith, h) in
    let rest : all_labels ls ≡ true = ground (arith, h) in
    (all-All is_label_byte l body, all_labels-All ls rest)

-- The labels of a text hold its bytes, but for the dots.
split-IsHostText :
    (s : Text) → All (λ l. All (λ c. is_label_byte c ≡ true) l) (split b'.' s) → IsHostText s
split-IsHostText [] h = tt
split-IsHostText (c ∷ s) h = elim (Bool-cases (c == b'.')) [
  | inl e ↦ (ground (arith, e), split-IsHostText s (rw e at h).1)
  | inr e ↦
      let (byte, rest) = behind (split b'.' s) (rw e at h) in
      (ground (arith, byte), split-IsHostText s rest)
]
  where
    behind :
        (ls : List Text)
        → All (λ l. All (λ x. is_label_byte x ≡ true) l) (put_first c ls)
        → (is_label_byte c ≡ true) × All (λ l. All (λ x. is_label_byte x ≡ true) l) ls
    behind [] a = (a.0.0, tt)
    behind (l ∷ ls) a = (a.0.0, (a.0.1, a.1))

-- A mask host that the forms accept has only letters, digits, hyphens and dots: no quote, space or
-- line break reaches the file.
pub is_valid_mask_host-IsHostText : (s : Text) → is_valid_mask_host s ≡ true → IsHostText s
unfolding is_valid_mask_host
is_valid_mask_host-IsHostText s h =
    let labels : all_labels (split b'.' s) ≡ true = ground (arith, h) in
    split-IsHostText s (all_labels-All (split b'.' s) labels)
