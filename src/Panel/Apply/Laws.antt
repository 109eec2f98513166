-- ===== src/Panel/Apply/Laws.antt =====
-- What every course of `applyTeleproxyConfig` leaves of the panel.
use mtproxy_orchestrator.Base.{
  inl, inr, not, ◌&&◌, List, [], ◌∷◌, map, filter, true, false, ◌≡◌, refl, arith,
}
use mtproxy_orchestrator.Schema.{UserRow, Db}
use mtproxy_orchestrator.Bridge.Host.{TeleproxyConfig}
use mtproxy_orchestrator.Panel.Apply.{
  is_served, entry, entries, bridge_entries, Panel, Course, apply_teleproxy_config, fails,
  list_failed, users_json_failed, teleproxy_toml_failed, reload_failed, applied, IsInStep, IsLeft,
}

module _ (settings : TeleproxyConfig) where
  pub apply-db : (c : Course) (p : Panel) → (apply_teleproxy_config settings c p).0.db ≡ p.db
  unfolding apply_teleproxy_config
  apply-db list_failed p = refl
  apply-db (users_json_failed torn) p = refl
  apply-db (teleproxy_toml_failed torn) p = refl
  apply-db (reload_failed after) p = refl
  apply-db (applied kept) p = refl

  pub apply-fails : (c : Course) (p : Panel) → (apply_teleproxy_config settings c p).1 ≡ fails c
  unfolding apply_teleproxy_config
  apply-fails list_failed p = refl
  apply-fails (users_json_failed torn) p = refl
  apply-fails (teleproxy_toml_failed torn) p = refl
  apply-fails (reload_failed after) p = refl
  apply-fails (applied kept) p = refl

  -- A failing call leaves the running Teleproxy as it was, unless it is the reload that fails.
  pub apply-loaded :
      (c : Course) (p : Panel) → fails c ≡ true → IsLeft c p (apply_teleproxy_config settings c p).0
  unfolding apply_teleproxy_config
  apply-loaded list_failed p h = inl refl
  apply-loaded (users_json_failed torn) p h = inl refl
  apply-loaded (teleproxy_toml_failed torn) p h = inl refl
  apply-loaded (reload_failed after) p h = inr (after, (refl, refl))
  apply-loaded (applied kept) p h = absurd (ground arith)

  pub apply-IsInStep :
      (c : Course) (p : Panel)
      → fails c ≡ false
      → IsInStep settings (apply_teleproxy_config settings c p).0
  unfolding apply_teleproxy_config
  apply-IsInStep (applied kept) p h = record { json = refl; toml = refl; served = refl }
  apply-IsInStep list_failed p h = absurd (ground arith)
  apply-IsInStep (users_json_failed torn) p h = absurd (ground arith)
  apply-IsInStep (teleproxy_toml_failed torn) p h = absurd (ground arith)
  apply-IsInStep (reload_failed after) p h = absurd (ground arith)

abbrev pub resumed : UserRow → UserRow
resumed u = record u { quota_suspended = false }

entries-rows :
    (us : List UserRow)
    → map entry (filter (λ u. u.enabled && not u.deleted) (filter (λ u. not u.deleted) us))
      ≡ map entry (filter is_served (filter (λ u. not u.deleted) (map resumed us)))
entries-rows [] = refl
entries-rows (u ∷ us) = ground (arith, entries-rows us)

-- A switch of the bridge writes the users that are served when no user is suspended.
bridge_entries-entries :
    (db : Db) → bridge_entries db ≡ entries (record db { users = map resumed db.users })
unfolding bridge_entries entries
bridge_entries-entries db = entries-rows db.users
