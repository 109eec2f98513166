-- ===== src/Panel/Users.antt =====
-- `UserRepo` of internal/panel/users.go. A method is a function on the tables; its result is `none`
-- where it returns an error with no fault of the database.
pub mod Creation
pub mod Limits
use mtproxy_orchestrator.Base.{
  ℕ, ◌+◌, String, Bool, true, false, not, ◌&&◌, ◌||◌, Option, none, some, List, [], ◌∷◌, ◌++◌, ltb,
  leb, ◌==◌, str_eq, if◌then◌else◌, length, filter, find,
}
use mtproxy_orchestrator.Base.Sql.{update, exists, greatest}
use mtproxy_orchestrator.Schema.{UserRow, TrafficRow, Db}
use mtproxy_orchestrator.Quota.Service.{has_id, list_users, traffic_since}

abbrev pub max_active_users : ℕ
max_active_users = 16

-- `WHERE id=? AND deleted_at IS NULL`
abbrev pub live_id : ℕ → UserRow → Bool
live_id id u = u.id == id && not u.deleted

-- The live row of an id, as it is stored.
abbrev pub live_row : ℕ → Db → Option UserRow
live_row id db = find (live_id id) db.users

-- The usage in `List`: the traffic since the start of the period, or what is stored where there are no
-- rows of it.
unfoldable pub live_usage : Db → UserRow → ℕ
unfolding traffic_since
live_usage db u =
    if exists (λ (r : TrafficRow). str_eq r.user_label u.label && leb u.quota_period_start r.ts)
      db.traffic_daily
    then traffic_since u.label u.quota_period_start db
    else u.quota_used_bytes

abbrev pub with_usage : Db → UserRow → UserRow
with_usage db u = record u { quota_used_bytes = live_usage db u }

abbrev pub found_usage : Db → Option UserRow → Option UserRow
found_usage db none = none
found_usage db (some u) = some (with_usage db u)

-- The row of `List` with an id.
abbrev pub listed : ℕ → Db → Option UserRow
listed id db = found_usage db (live_row id db)

abbrev pub update_users : (UserRow → Bool) → (UserRow → UserRow) → Db → Db
update_users p f db = record db { users = update p f db.users }

unfoldable pub set_enabled : ℕ → Bool → Db → Db
set_enabled id b db = update_users (live_id id) (λ r. record r { enabled = b }) db

unfoldable pub delete : ℕ → Db → Db
delete id db = update_users (live_id id) (λ r. record r { deleted = true }) db

unfoldable pub restore : ℕ → Db → Db
restore id db = update_users (has_id id) (λ r. record r { deleted = false }) db

-- `now` is `datetime('now')`.
unfoldable pub update_secret : ℕ → String → ℕ → Db → Db
update_secret id secret now db =
    update_users (live_id id) (λ r. record r { secret_hex = secret; rotated_at = now }) db

unfoldable pub set_suspended : ℕ → Bool → Db → Db
set_suspended id b db = update_users (live_id id) (λ r. record r { quota_suspended = b }) db

abbrev pub with_quota : UserRow → UserRow → UserRow
with_quota prev r = record r {
  quota_bytes = prev.quota_bytes;
  quota_period = prev.quota_period;
  quota_warn_pct = prev.quota_warn_pct;
  quota_suspended = prev.quota_suspended;
  quota_period_start = prev.quota_period_start;
  quota_used_bytes = prev.quota_used_bytes;
  quota_warned = prev.quota_warned;
}

unfoldable pub restore_quota_state : ℕ → UserRow → Db → Db
restore_quota_state id prev db = update_users (live_id id) (with_quota prev) db

abbrev pub fresh_quota : ℕ → UserRow → UserRow
fresh_quota now r = record r {
  quota_used_bytes = 0;
  quota_warned = false;
  quota_suspended = false;
  quota_period_start = now;
}

unfoldable pub reset_quota : ℕ → ℕ → Db → Db
reset_quota id now db = update_users (live_id id) (fresh_quota now) db

-- The four UPDATE statements of `SetQuota`, by `bytes == 0` and by the change of period.
unfoldable pub quota_update : Bool → ℕ → String → ℕ → ℕ → UserRow → UserRow
quota_update restarts bytes period pct now r =
    if bytes == 0
    then (if restarts
        then record (fresh_quota now r) {
          quota_bytes = 0;
          quota_period = period;
          quota_warn_pct = pct;
        }
        else record r {
          quota_bytes = 0;
          quota_warn_pct = pct;
          quota_warned = false;
          quota_suspended = false;
        })
    else if restarts
    then record (fresh_quota now r) {
      quota_bytes = bytes;
      quota_period = period;
      quota_warn_pct = pct;
    }
    else record r { quota_bytes = bytes; quota_warn_pct = pct }

abbrev pub known_period : String → Bool
known_period p = str_eq p "daily" || (str_eq p "weekly" || str_eq p "monthly")

-- `SetQuota`: its SELECT reads a deleted row too, its UPDATEs write a live one.
unfoldable pub set_quota : ℕ → ℕ → String → ℕ → ℕ → Db → Option Db
set_quota id bytes period pct now db =
    if not (known_period period)
    then none
    else if ltb 100 pct
    then none
    else elim (find (has_id id) db.users) [
      | none ↦ none
      | some u ↦
          let restarts = not (str_eq u.quota_period period) || u.quota_period_start == 0 in
          some (update_users (live_id id) (quota_update restarts bytes period pct now) db)
    ]

unfoldable pub active_count : Db → ℕ
active_count db = length (filter (λ u. not u.deleted && u.enabled) db.users)

abbrev pub new_user : ℕ → String → String → UserRow
new_user id label secret = record {
  id = id;
  label = label;
  secret_hex = secret;
  enabled = true;
  deleted = false;
  rotated_at = 0;
  quota_bytes = 0;
  quota_period = "monthly";
  quota_warn_pct = 80;
  quota_suspended = false;
  quota_period_start = 0;
  quota_used_bytes = 0;
  quota_warned = false;
}

-- `Create`. The INSERT fails on `UNIQUE(label)`, which counts deleted rows too; `id` is the one that
-- AUTOINCREMENT gives.
unfoldable pub create : ℕ → String → String → Db → Option Db
unfolding active_count
create id label secret db =
    if leb max_active_users (active_count db)
    then none
    else if exists (λ u. str_eq u.label label && not u.deleted) db.users
    then none
    else if exists (λ (u : UserRow). str_eq u.label label) db.users
    then none
    else some (record db { users = db.users ++ new_user id label secret ∷ [] })
