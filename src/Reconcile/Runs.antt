-- ===== src/Reconcile/Runs.antt =====
-- Sequences of the single writes of internal/reconcile/reconcile.go: what holds behind them all.
use mtproxy_orchestrator.Base.{
  ℕ, Bool, false, ◌||◌, Option, none, some, List, [], ◌∷◌, ◌++◌, ◌≡◌, ◌≢◌, ◌⊎◌, refl, sym, ap, ◌∙◌,
  inl, inr, arith, subst, All,
}
use mtproxy_orchestrator.Base.Sql.{Distinct}
use mtproxy_orchestrator.Reconcile.Files.{
  Act, Call, writing, World, bind_at, ◌>>=◌, pure, FileName, file_index,
}
use mtproxy_orchestrator.Reconcile.Sync.{Stubs, Item, is_legacy, sync, sync_all}
use mtproxy_orchestrator.Reconcile.Applied.{
  target, Holds, IsReadable, sync-commands, sync-others, sync-Holds, sync_again,
}

abbrev pub key : Item → ℕ
key i = file_index (target i)

abbrev pub AllHold : Stubs → List Item → World → Type 0
AllHold stubs is w = All (λ i. Holds stubs i (w.files (target i))) is

module _ (fails : Call → Bool) (stubs : Stubs) where
  -- The items succeed one behind the other.
  abbrev pub Syncs : List Item → World → World → Type 0
  Syncs [] w w' = w ≡ w'
  Syncs (i ∷ is) w w' =
      (b : Bool) × (((sync fails stubs i w).0 ≡ some b) × Syncs is (sync fails stubs i w).1 w')

  pub Syncs-others :
      (is : List Item) (q : FileName) (w w' : World)
      → Syncs is w w'
      → All (λ i. file_index q ≢ key i) is
      → w'.files q ≡ w.files q
  Syncs-others [] q w w' h away = ap (λ v. v.files q) (sym h)
  Syncs-others (i ∷ is) q w w' (b, (e, h)) away =
      Syncs-others is q (sync fails stubs i w).1 w' h away.1
      ∙ sync-others fails stubs i q w (ground (arith, away.0))

  -- Items about different files all hold behind them.
  pub Syncs-AllHold :
      (is : List Item) (w w' : World)
      → IsReadable fails
      → is_legacy stubs stubs.default_stub_html ≡ false
      → Distinct key is
      → Syncs is w w'
      → AllHold stubs is w'
  Syncs-AllHold [] w w' ok new d h = tt
  Syncs-AllHold (i ∷ is) w w' ok new d (b, (e, h)) =
      let next = (sync fails stubs i w).1 in
      let kept = Syncs-others is (target i) next w' h d.0 in
      (
        subst (λ f. Holds stubs i f) (sym kept) (sync-Holds fails stubs i w ok new e),
        Syncs-AllHold is next w' ok new d.1 h,
      )

  Syncs-append :
      (is js : List Item) (w u v : World) → Syncs is w u → Syncs js u v → Syncs (is ++ js) w v
  Syncs-append [] js w u v g h = subst (λ x. Syncs js x v) (sym g) h
  Syncs-append (i ∷ is) js w u v (b, (e, g)) h =
      (b, (e, Syncs-append is js (sync fails stubs i w).1 u v g h))

  -- How a run ends: by an error that ran no command, or with all items done.
  abbrev pub Ends : List Item → World → Option (Unit {0}) × World → Type 0
  Ends is w r =
      ((r.0 ≡ none) × (r.1.commands ≡ w.commands))
      ⊎ ((w' : World) × (Syncs is w w' × (r.1.files ≡ w'.files)))

  pub sync-Ends :
      (i : Item) (is : List Item) (f : Bool → Act (Unit {0})) (w : World)
      → ((b : Bool) (u : World) → Ends is u (f b u))
      → Ends (i ∷ is) w ((sync fails stubs i >>= f) w)
  sync-Ends i is f w rest = behind (sync fails stubs i w).0 refl
    where
      behind :
          (o : Option Bool)
          → (sync fails stubs i w).0 ≡ o
          → Ends (i ∷ is) w (bind_at o f (sync fails stubs i w).1)
      behind none e = inl (refl, sync-commands fails stubs i w)
      behind (some b) e = elim (rest b (sync fails stubs i w).1) [
        | inl (failed, same) ↦ inl (failed, same ∙ sync-commands fails stubs i w)
        | inr (w', (done, same)) ↦ inr (w', ((b, (e, done)), same))
      ]

  bind_assoc :
      (o : Option Bool) (c : Bool) (f : Bool → Act (Unit {0})) (u : World)
      → (let r = bind_at o (λ rest. pure (c || rest)) u in bind_at r.0 f r.1)
        ≡ bind_at o (λ rest. f (c || rest)) u
  bind_assoc none c f u = refl
  bind_assoc (some rest) c f u = refl

  sync_all_cons :
      (i : Item) (is : List Item) (f : Bool → Act (Unit {0})) (w : World)
      → (sync_all fails stubs (i ∷ is) >>= f) w
        ≡ (sync fails stubs i >>= λ c. sync_all fails stubs is >>= λ rest. f (c || rest)) w
  unfolding sync_all
  sync_all_cons i is f w = behind (sync fails stubs i w).0 (sync fails stubs i w).1
    where
      behind :
          (o : Option Bool) (u : World)
          → (let r = bind_at o (λ c. sync_all fails stubs is >>= λ rest. pure (c || rest)) u in
              bind_at r.0 f r.1)
            ≡ bind_at o (λ c. sync_all fails stubs is >>= λ rest. f (c || rest)) u
      behind none u = refl
      behind (some c) u = bind_assoc (sync_all fails stubs is u).0 c f (sync_all fails stubs is u).1

  pub sync_all-Ends :
      (js is : List Item) (f : Bool → Act (Unit {0})) (w : World)
      → ((b : Bool) (u : World) → Ends is u (f b u))
      → Ends (js ++ is) w ((sync_all fails stubs js >>= f) w)
  unfolding sync_all
  sync_all-Ends [] is f w rest = rest false w
  sync_all-Ends (j ∷ js) is f w rest =
      subst (λ r. Ends (j ∷ (js ++ is)) w r) (sym (sync_all_cons j js f w))
        (sync-Ends j (js ++ is) (λ c. sync_all fails stubs js >>= λ more. f (c || more)) w
          (λ b u. sync_all-Ends js is (λ more. f (b || more)) u (λ more v. rest (b || more) v)))

  -- Items that hold are done again without a change, where no write fails.
  pub sync_all_again :
      (is : List Item) (w : World)
      → IsReadable fails
      → ((name : FileName) → fails (writing name) ≡ false)
      → AllHold stubs is w
      → sync_all fails stubs is w ≡ (some false, w)
  unfolding sync_all
  sync_all_again [] w ok writes h = refl
  sync_all_again (i ∷ is) w ok writes h =
      ap
        (λ (r : Option Bool × World).
          bind_at r.0 (λ c. sync_all fails stubs is >>= λ rest. pure (c || rest)) r.1)
        (sync_again fails stubs i w ok writes h.0)
      ∙ ap (λ (r : Option Bool × World). bind_at r.0 (λ rest. pure rest) r.1)
          (sync_all_again is w ok writes h.1)
