-- ===== src/Metrics/Series/Buckets.antt =====
-- What a bucket of the series holds.
use mtproxy_orchestrator.Base.{
  ℕ, zero, suc, ◌+◌, ◌-◌, ◌*◌, ◌/◌, ◌<◌, Bool, false, ◌&&◌, some, List, [], ◌∷◌, ◌≡◌, refl, ap, ◌∙◌,
  inl, inr, arith, ◌==◌, if◌then◌else◌, get_elem?, Bool-cases,
}
use mtproxy_orchestrator.Base.Sql.{sum}
use mtproxy_orchestrator.Schema.{OpsRow, Db}
use mtproxy_orchestrator.Metrics.Series.{
  Period, duration, bucket_step, empty_bucket, empty_series, add_sample, add_at, in_window,
  add_samples, query_ops_series,
}

-- A sample of the window that falls into bucket `i`.
abbrev pub in_bucket : ℕ → ℕ → ℕ → ℕ → OpsRow → Bool
in_bucket start end step i r = in_window start end r && (r.ts - start) / step == i

-- The bucket from `ts` on, with the sums of its samples.
abbrev pub full_bucket : ℕ → (OpsRow → Bool) → List OpsRow → OpsRow
full_bucket ts q rs = record {
  ts = ts;
  accepted = sum q (λ (r : OpsRow). r.accepted) rs;
  rejected = sum q (λ (r : OpsRow). r.rejected) rs;
  socks5_attempted = sum q (λ (r : OpsRow). r.socks5_attempted) rs;
  socks5_succeeded = sum q (λ (r : OpsRow). r.socks5_succeeded) rs;
}

get-add_at :
    (i j : ℕ) (r : OpsRow) (bs : List OpsRow) (b : OpsRow)
    → get_elem? bs i ≡ some b
    → get_elem? (add_at j r bs) i ≡ some (if j == i then add_sample b r else b)
get-add_at i j r [] b h = absurd (cc h)
get-add_at zero zero r (c ∷ bs) b h = cc h
get-add_at zero (suc j) r (c ∷ bs) b h = ground (arith, h)
get-add_at (suc i) zero r (c ∷ bs) b h = ground (arith, h)
get-add_at (suc i) (suc j) r (c ∷ bs) b h = ground (arith, get-add_at i j r bs b h)

-- A bucket with the samples of `rs` that pass put on top.
abbrev plus : OpsRow → (OpsRow → Bool) → List OpsRow → OpsRow
plus b q rs = record b {
  accepted = b.accepted + sum q (λ (r : OpsRow). r.accepted) rs;
  rejected = b.rejected + sum q (λ (r : OpsRow). r.rejected) rs;
  socks5_attempted = b.socks5_attempted + sum q (λ (r : OpsRow). r.socks5_attempted) rs;
  socks5_succeeded = b.socks5_succeeded + sum q (λ (r : OpsRow). r.socks5_succeeded) rs;
}

same_row :
    (x y : OpsRow)
    → x.ts ≡ y.ts
    → x.accepted ≡ y.accepted
    → x.rejected ≡ y.rejected
    → x.socks5_attempted ≡ y.socks5_attempted
    → x.socks5_succeeded ≡ y.socks5_succeeded
    → x ≡ y
same_row x y t a b c d i = record {
  ts = t i;
  accepted = a i;
  rejected = b i;
  socks5_attempted = c i;
  socks5_succeeded = d i;
}

plus-step :
    (b r : OpsRow) (q : OpsRow → Bool) (rs : List OpsRow)
    → plus (if q r then add_sample b r else b) q rs ≡ plus b q (r ∷ rs)
plus-step b r q rs = elim (Bool-cases (q r)) [
  | inl e ↦ rw e (same_row _ _ refl (omega arith) (omega arith) (omega arith) (omega arith))
  | inr e ↦ rw e (same_row _ _ refl (omega arith) (omega arith) (omega arith) (omega arith))
]

get-add_samples :
    (start end step i : ℕ) (rs series : List OpsRow) (b : OpsRow)
    → get_elem? series i ≡ some b
    → get_elem? (add_samples start end step rs series) i
      ≡ some (plus b (in_bucket start end step i) rs)
get-add_samples start end step i [] series b h =
    h ∙ ap some (same_row _ _ refl (omega arith) (omega arith) (omega arith) (omega arith))
get-add_samples start end step i (r ∷ rs) series b h =
    let next = if in_window start end r then add_at ((r.ts - start) / step) r series else series in
    let now : get_elem? next i ≡ some (if in_bucket start end step i r then add_sample b r else b) =
      elim (Bool-cases (in_window start end r)) [
        | inl e ↦ rw e (get-add_at i ((r.ts - start) / step) r series b h)
        | inr e ↦ rw e h
      ] in
    get-add_samples start end step i rs next
      (if in_bucket start end step i r then add_sample b r else b) now
    ∙ ap some (plus-step b r (in_bucket start end step i) rs)

later : (start step i : ℕ) → start + step + i * step ≡ start + suc i * step
later start step i = grind arith

get-empty_series :
    (n start step i : ℕ)
    → i < n
    → get_elem? (empty_series n start step) i ≡ some (empty_bucket (start + i * step))
get-empty_series zero start step i l = absurd (omega (arith, l))
get-empty_series (suc n) start step zero l = ap (λ t. some (empty_bucket t)) (omega arith)
get-empty_series (suc n) start step (suc i) l =
    get-empty_series n (start + step) step i (omega (arith, l))
    ∙ ap (λ t. some (empty_bucket t)) (later start step i)

-- For a number of buckets that is not 0, where the database does not fail, bucket `i` begins `i` steps
-- after the window, and holds the sums of the samples of the window that fall into it.
pub query_ops_series-full_bucket :
    (p : Period) (buckets now i : ℕ) (db : Db)
    → i < buckets
    → let start = now - duration p in
      let step = bucket_step p buckets in
      (series : List OpsRow) × ((query_ops_series false p buckets now db ≡ some series)
        × (get_elem? series i
            ≡ some (full_bucket (start + i * step) (in_bucket start now step i) db.ops_samples)))
unfolding query_ops_series
query_ops_series-full_bucket p buckets now i db l =
    let start = now - duration p in
    let step = bucket_step p buckets in
    let some_buckets : (buckets == 0) ≡ false = ground (arith, l) in
    (
      add_samples start now step db.ops_samples (empty_series buckets start step),
      (
        rw some_buckets refl,
        get-add_samples start now step i db.ops_samples (empty_series buckets start step)
              (empty_bucket (start + i * step)) (get-empty_series buckets start step i l)
            ∙ ap some (same_row _ _ refl (omega arith) (omega arith) (omega arith) (omega arith)),
      ),
    )
