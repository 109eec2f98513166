-- ===== src/Login/Factor.antt =====
-- `Validate` and `ConsumeRecoveryCode` of internal/totp/totp.go. A code has no space round it.
pub mod Once
use mtproxy_orchestrator.Base.{
  ℕ, String, Bool, true, false, not, ◌&&◌, ◌||◌, Option, none, some, List, [], ◌∷◌, str_eq,
  if◌then◌else◌,
}
use mtproxy_orchestrator.Login.{Admin, Panel, admin_row}

-- The calls of the database in `ConsumeRecoveryCode` that fail.
pub record RecoveryFaults : Type 0 where
  pub begin : Bool
  pub read : Bool
  pub write : Bool
  pub commit : Bool

-- `code_valid` is the check of a one-time code at an instant, with that of the secret's base32;
-- `hash_matches` is bcrypt's comparison.
module _ (code_valid : ℕ → String → String → Bool) (hash_matches : String → String → Bool) where
  unfoldable pub validate : ℕ → String → String → Bool
  validate now secret code =
      not (str_eq secret "") && (not (str_eq code "") && code_valid now secret code)

  -- The list without the first hash that matches the code.
  unfoldable pub remove_match : String → List String → Option (List String)
  remove_match code [] = none
  remove_match code (h ∷ hs) =
      let rest = elim (remove_match code hs) as (λ o. Option (List String)) [
        | none ↦ none
        | some ks ↦ some (h ∷ ks)
      ] in
      if hash_matches h code then some hs else rest

  -- The result is the flag alone: the callers drop the error. The flag of a match is true also where
  -- the transaction does not commit.
  unfoldable pub consume_recovery_code : RecoveryFaults → ℕ → String → Panel → Panel × Bool
  unfolding remove_match
  consume_recovery_code f admin_id code p =
      if str_eq code "" || (f.begin || f.read) then (p, false) else elim (admin_row admin_id p) [
        | none ↦ (p, false)
        | some a ↦ elim (remove_match code a.recovery_hashes) [
          | none ↦ (p, false)
          | some hashes ↦
              if f.write
              then (p, false)
              else if f.commit
              then (p, true)
              else (record p { admin = some (record a { recovery_hashes = hashes }) }, true)
        ]
      ]
