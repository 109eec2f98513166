-- ===== src/Panel/Nodes/Rollback.antt =====
-- `saveNodeListWithRerenderRollback` of internal/panel/bridge.go: what the file of nodes holds behind
-- it, on success and on an error.
use mtproxy_orchestrator.Base.{
  Bool, true, false, not, some, [], ◌∷◌, ◌++◌, ◌≡◌, ◌⊎◌, refl, ap, sym, ◌∙◌, inl, inr, arith, subst,
  Bool-cases, length, ◌==◌, if◌then◌else◌,
}
use mtproxy_orchestrator.Bridge.Node.{NodeList, active}
use mtproxy_orchestrator.Bridge.Rotation.{
  SingboxConfig, normalize_strategy, render_outbounds, config_is_valid,
}
use mtproxy_orchestrator.Bridge.Host.{
  Env, Host, File, Bytes, node_file, node_tmp, singbox_json, mode_for, put, file_index, write_file,
  rename, write_rename, save, parsed, service_active, snapshot, singbox,
}
use mtproxy_orchestrator.Bridge.Plan.{
  Result, done, failed, rolled_back, no_enabled_nodes, config_invalid, write_singbox_json,
  save_cursor, when, same_cursor,
}
use mtproxy_orchestrator.Bridge.Switch.{rerender_config, restore_snapshot}
use mtproxy_orchestrator.Panel.Nodes.{Server, save_with_rollback, rerender_if_active, is_done}

module _ (env : Env) where
  abbrev written : NodeList → Host → File
  written nl h = record {
    content = env.encode_nodes nl ++ 10 ∷ [];
    mode = mode_for (h.disk node_tmp) 384;
  }

  -- A save that succeeds has written the list, and one that fails leaves the file as it was.
  save-disk :
      (nl : NodeList) (h : Host)
      → (save env nl h).0 ≡ true
      → (save env nl h).1.disk node_file ≡ some (written nl h)
  unfolding save write_rename write_file rename put file_index
  save-disk nl h ok = ground (arith, ok)

  save_failed :
      (nl : NodeList) (h : Host)
      → (save env nl h).0 ≡ false
      → (save env nl h).1.disk node_file ≡ h.disk node_file
  unfolding save write_rename write_file rename put file_index
  save_failed nl h ok = ground (arith, ok)

  write_singbox-disk :
      (content : Bytes) (h : Host)
      → (write_file env singbox_json content 384 h).1.disk node_file ≡ h.disk node_file
  unfolding write_file put file_index
  write_singbox-disk content h = ground arith

  snapshot-disk : (h : Host) → (snapshot env singbox_json h).1.disk node_file ≡ h.disk node_file
  unfolding snapshot
  snapshot-disk h = elim (Bool-cases (env.fails h.calls)) [ inl e ↦ rw e refl | inr e ↦ rw e refl ]

  -- The list that a rendering leaves: the list itself, with another cursor.
  abbrev rendered_list : NodeList → NodeList
  rendered_list nl = (render_outbounds nl (normalize_strategy nl.strategy)).1

  -- The end of a rendering: what decides, and the host behind the last write.
  abbrev rendering : NodeList → Host → (Bool × Host) × (Bool × Host)
  rendering nl h =
      let strategy = normalize_strategy nl.strategy in
      let (outbounds, rendered) = render_outbounds nl strategy in
      let sb : SingboxConfig = record { strategy = strategy; outbounds = outbounds } in
      let write =
        write_file env singbox_json (env.singbox_text sb) 384 (snapshot env singbox_json h).1 in
      (
        write,
        when (not (same_cursor rendered.round_robin_cursor nl.round_robin_cursor))
            (save env rendered) write.1,
      )

  when-save :
      (b : Bool) (nl : NodeList) (h : Host)
      → (when b (save env nl) h).0 ≡ true
      → ((when b (save env nl) h).1.disk node_file ≡ h.disk node_file)
        ⊎ ((when b (save env nl) h).1.disk node_file ≡ some (written nl h))
  when-save true nl h ok = inr (save-disk nl h ok)
  when-save false nl h ok = inl refl

  done_last :
      (a b c d : Bool) (h1 h2 h3 h4 : Host)
      → (let r : Result × Host =
            if a
            then (failed no_enabled_nodes, h1)
            else if not b
            then (failed config_invalid, h1)
            else if not c
            then (failed write_singbox_json, h2)
            else if not d
            then (failed save_cursor, h3)
            else (done, h4) in
          r.0 ≡ done → (d ≡ true) × (r.1 ≡ h4))
  done_last true b c d h1 h2 h3 h4 ok = cc
  done_last false false c d h1 h2 h3 h4 ok = cc
  done_last false true false d h1 h2 h3 h4 ok = cc
  done_last false true true false h1 h2 h3 h4 ok = cc
  done_last false true true true h1 h2 h3 h4 ok = (refl, refl)

  -- A rendering that succeeds leaves the file, or saves the list with its new cursor.
  rerender_config-disk :
      (nl : NodeList) (h : Host)
      → (rerender_config env nl h).0 ≡ done
      → ((rerender_config env nl h).1.disk node_file ≡ h.disk node_file)
        ⊎ ((u : Host) × ((rerender_config env nl h).1.disk node_file
              ≡ some (written (rendered_list nl) u)))
  unfolding rerender_config snapshot
  rerender_config-disk nl h ok =
      let ((wrote, h2), (saved, h3)) = rendering nl h in
      let strategy = normalize_strategy nl.strategy in
      let (outbounds, rendered) = render_outbounds nl strategy in
      let sb : SingboxConfig = record { strategy = strategy; outbounds = outbounds } in
      let snap = (snapshot env singbox_json h).0 in
      let (last, host) =
        done_last (length (active nl) == 0) (config_is_valid sb) wrote saved h
          (restore_snapshot env snap h2) (restore_snapshot env snap h3) h3 ok in
      let kept = write_singbox-disk (env.singbox_text sb) (snapshot env singbox_json h).1 in
      subst
        (λ (u : Host).
          (u.disk node_file ≡ h.disk node_file)
          ⊎ ((v : Host) × (u.disk node_file ≡ some (written (rendered_list nl) v))))
        (sym host)
        (elim (when-save (not (same_cursor rendered.round_robin_cursor nl.round_robin_cursor))
          rendered h2 last) [
            | inl same ↦ inl (same ∙ kept ∙ snapshot-disk h)
            | inr new ↦ inr (h2, new)
          ])

is_done-done : (r : Result) → is_done r ≡ true → r ≡ done
is_done-done done h = refl
is_done-done (failed c) h = cc
is_done-done (rolled_back c cs) h = cc

service_active-disk :
    (env : Env) (h : Host) → (service_active env singbox h).1.disk node_file ≡ h.disk node_file
unfolding service_active
service_active-disk env h = refl

abbrev pick : Bool → Bool → Host → Host → Host → Bool × Host
pick a b h1 h2 h3 = if not a then (false, h1) else if b then (true, h2) else (false, h3)

pick-false :
    (a b : Bool) (h1 h2 h3 : Host)
    → (pick a b h1 h2 h3).0 ≡ false
    → ((a ≡ false) × ((pick a b h1 h2 h3).1 ≡ h1)) ⊎ ((pick a b h1 h2 h3).1 ≡ h3)
pick-false false b h1 h2 h3 e = inl (refl, refl)
pick-false true true h1 h2 h3 e = cc
pick-false true false h1 h2 h3 e = inr refl

pick-true :
    (a b : Bool) (h1 h2 h3 : Host)
    → (pick a b h1 h2 h3).0 ≡ true
    → (a ≡ true) × ((b ≡ true) × ((pick a b h1 h2 h3).1 ≡ h2))
pick-true false b h1 h2 h3 e = cc
pick-true true false h1 h2 h3 e = cc
pick-true true true h1 h2 h3 e = (refl, (refl, refl))

-- The text of a list is read back as it was written.
abbrev pub IsReadBack : Env → NodeList → Type 0
IsReadBack env nl = env.decode_nodes (env.encode_nodes nl ++ 10 ∷ []) ≡ some nl

module _ (env : Env) (srv : Server) where
  -- Where a save of nodes with a rendering reports an error, the file of nodes can be loaded with the
  -- list as it was, unless the save that undoes it fails too. The text of that list is read back as it
  -- was written.
  pub save_with_rollback_undone :
      (current updated : NodeList) (h : Host)
      → IsReadBack env current
      → parsed env (h.disk node_file) ≡ some current
      → (save_with_rollback env srv current updated h).0 ≡ false
      → (parsed env ((save_with_rollback env srv current updated h).1.disk node_file)
          ≡ some current)
        ⊎ ((save env current (rerender_if_active env srv updated (save env updated h).1).1).0
            ≡ false)
  unfolding save_with_rollback
  save_with_rollback_undone current updated h reads_back before unsaved =
      let (saved, h1) = save env updated h in
      let (rendered, h2) = rerender_if_active env srv updated h1 in
      let (restored, h3) = save env current h2 in
      elim (Bool-cases restored) [
        | inr lost ↦ inr lost
        | inl back ↦ inl (elim (pick-false saved rendered h1 h2 h3 unsaved) [
          | inl (stopped, host) ↦
              ap (λ (u : Host). parsed env (u.disk node_file)) host
              ∙ ap (λ f. parsed env f) (save_failed env updated h stopped)
              ∙ before
          | inr host ↦
              ap (λ (u : Host). parsed env (u.disk node_file)) host
              ∙ ap (λ f. parsed env f) (save-disk env current h2 back)
              ∙ reads_back
        ])
      ]

  -- A rendering that reports no error leaves the list that the file has, or one with another cursor.
  rerender_if_active-parsed :
      (nl : NodeList) (h : Host)
      → IsReadBack env (rendered_list env nl)
      → parsed env (h.disk node_file) ≡ some nl
      → (rerender_if_active env srv nl h).0 ≡ true
      → (parsed env ((rerender_if_active env srv nl h).1.disk node_file) ≡ some nl)
        ⊎ (parsed env ((rerender_if_active env srv nl h).1.disk node_file)
            ≡ some (rendered_list env nl))
  unfolding rerender_if_active
  rerender_if_active-parsed nl h reads_back before ok = behind (service_active env singbox h).0 ok
    where
      h1 : Host
      h1 = (service_active env singbox h).1

      Reads : Host → Type 0
      Reads u =
          (parsed env (u.disk node_file) ≡ some nl)
          ⊎ (parsed env (u.disk node_file) ≡ some (rendered_list env nl))

      alive : parsed env (h1.disk node_file) ≡ some nl
      alive = ap (λ f. parsed env f) (service_active-disk env h) ∙ before

      ran : is_done (rerender_config env nl h1).0 ≡ true → Reads (rerender_config env nl h1).1
      ran d = elim (rerender_config-disk env nl h1 (is_done-done (rerender_config env nl h1).0 d)) [
        | inl same ↦ inl (ap (λ f. parsed env f) same ∙ alive)
        | inr (u, new) ↦ inr (ap (λ f. parsed env f) new ∙ reads_back)
      ]

      ended : Bool → Bool × Host
      ended b =
          let (result, h2) = rerender_config env nl h1 in
          if b then (is_done result, h2) else (true, h1)

      behind : (b : Bool) → (ended b).0 ≡ true → Reads (ended b).1
      behind true e = ran e
      behind false e = inl alive

  -- Where it reports none, the file can be loaded with the new list, whose cursor may have moved on. The
  -- texts of both are read back as they were written.
  save_with_rollback_saved :
      (current updated : NodeList) (h : Host)
      → IsReadBack env updated
      → IsReadBack env (render_outbounds updated (normalize_strategy updated.strategy)).1
      → (save_with_rollback env srv current updated h).0 ≡ true
      → (parsed env ((save_with_rollback env srv current updated h).1.disk node_file)
          ≡ some updated)
        ⊎ (parsed env ((save_with_rollback env srv current updated h).1.disk node_file)
            ≡ some (render_outbounds updated (normalize_strategy updated.strategy)).1)
  unfolding save_with_rollback
  save_with_rollback_saved current updated h reads_back moved ok =
      let (saved, h1) = save env updated h in
      let (rendered, h2) = rerender_if_active env srv updated h1 in
      let (restored, h3) = save env current h2 in
      let (kept, (done_too, host)) = pick-true saved rendered h1 h2 h3 ok in
      let now : parsed env (h1.disk node_file) ≡ some updated =
        ap (λ f. parsed env f) (save-disk env updated h kept) ∙ reads_back in
      let same = ap (λ (u : Host). parsed env (u.disk node_file)) host in
      elim (rerender_if_active-parsed updated h1 moved now done_too) [
        | inl e ↦ inl (same ∙ e)
        | inr e ↦ inr (same ∙ e)
      ]
