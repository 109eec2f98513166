-- ===== src/Lib.antt =====
-- Verification of MTProxyOrchestrator: the quota service, the metrics tables, the login limiter, the
-- bridge service, the panel's changes of users, nodes and settings, its logins, the updates, and the
-- reconciliation of an installation.
--
-- Base holds shared helpers: Boolean tests, lists over native numbers, int64, SQL statements on lists.
-- Schema has the tables of internal/db/migrations.go as lists of rows.
-- Quota.Calendar is the UTC calendar of package time that internal/quota/quota.go uses; Quota.Period
--   has DayFloor, PeriodEnd, addMonthClamped and the loop of RolloverIfDue; Quota.Service has
--   RolloverIfDue, Recalculate and tickAll, which read what Metrics.Sampler stores in traffic_daily.
-- Metrics.Sampler (internal/metrics/sampler.go), Metrics.Ops (ops_store.go) and Metrics.Retention
--   (aggregate.go) write the metrics tables; Metrics.Series is QueryOpsSeries, which reads one.
-- RateLimit is internal/panel/rate_limit.go.
-- Bridge.Node (internal/bridge/model.go), Bridge.Rotation (the render of internal/bridge/service.go),
--   Bridge.Host (files, units and their failures), Bridge.Plan (sequences of steps) and
--   Bridge.Switch (Enable, Disable, RerenderConfig).
-- Panel.Users is UserRepo of internal/panel/users.go. Panel.Apply is applyTeleproxyConfig of
--   internal/panel/user_actions.go with users.json, teleproxy.toml and what the running Teleproxy has
--   read; Panel.Actions has the handlers of one user and Panel.Batches those of several, which end in
--   it; Panel.Outcome compares their answers with the files and the running service.
-- Panel.Nodes is internal/panel/bridge.go, which runs Bridge.Switch and saves the nodes, with the
--   handlers in Panel.Nodes.Handlers; Panel.Nodes.Form reads the form of a node and Panel.Nodes.Edits
--   has the changes of the node list.
-- Login has the sessions and requireAuth of internal/panel/routes.go; Login.Pending the logins that
--   wait for the second factor (internal/panel/totp.go), Login.Factor the codes (internal/totp/totp.go),
--   Login.Handlers the login with RateLimit, and Login.Settings the switching of the factor.
-- Update.Versions, Update.Assets and Update.Checks are internal/update/checker.go: the order of versions,
--   the choice of a release's asset and its checksum, and the checks with their 18 hours. Update.Text
--   has the functions of packages strings and strconv that it calls, on ASCII bytes. Update.Apply is
--   the replacement of a binary by Apply of internal/update/apply.go, Update.Apply.Polling its Check.
-- Settings has the stored settings: internal/config/dbsettings.go, SetSetting of internal/db/db.go and
--   the saving of the form of internal/panel/proxy_settings.go; Settings.Validation and Settings.System
--   have that file's validators and handlers.
-- Nginx.MainConf is internal/nginx/mainconf.go on the lines of nginx.conf.
-- Teleproxy is Render of internal/teleproxy/config.go as text, and DetectMode of mode.go.
-- Reconcile is internal/reconcile/reconcile.go: it reads what Settings merges, and writes the files of
--   Reconcile.Files in the order of Reconcile.Sync, with the commands of internal/service/manager.go and
--   MigrateStubIfLegacy of internal/stub/embed.go.
-- Tests applies the results to concrete inputs.
--
-- Instants, ids, ports and counters are nonnegative; the product of the warning threshold and the parts
-- of a version wrap as on int64. The loop over periods has fuel `now + 1`: every period is a second or
-- longer. The polling of a unit has a round more than the intervals that make up its timeout. A call of
-- the database, of systemctl, of the server or of the file system fails where a parameter says so, and
-- a transaction that does not commit leaves the tables as they were. The text of the units, of nginx's
-- sites and of the files in JSON, the comparison of passwords and codes, random bytes, hashes, the
-- answers of the server, and what a reload makes of the running Teleproxy are parameters.
-- Not modelled: pages, routing, downloads, installation, backups, certificates, the TOML file of the
-- configuration, and the parsing of metrics and links.
pub mod Base
pub mod Schema
pub mod Quota
pub mod RateLimit
pub mod Metrics
pub mod Bridge
pub mod Panel
pub mod Login
pub mod Update
pub mod Settings
pub mod Nginx
pub mod Teleproxy
pub mod Reconcile
pub mod Tests
