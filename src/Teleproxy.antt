-- ===== src/Teleproxy.antt =====
-- The configuration file of Teleproxy: `Render` of internal/teleproxy/config.go, with its template
-- written out, and `DetectMode` of internal/teleproxy/mode.go. A text is a list of bytes; ports are
-- not negative.
pub mod Mode
use mtproxy_orchestrator.Base.{
  ℕ, String, Bool, true, false, not, Option, none, some, List, [], ◌∷◌, ◌++◌, ◌||◌, str_eq,
  if◌then◌else◌,
}
use mtproxy_orchestrator.Bridge.Host.{UserEntry, TeleproxyConfig}
use mtproxy_orchestrator.Update.Text.{Text, codes, contains, after_prefix}
use mtproxy_orchestrator.Update.Versions.Decimal.{decimal}

-- `DomainName`
unfoldable pub domain_name : TeleproxyConfig → String
domain_name c = if str_eq c.wildcard_mask "" then c.mask_host else c.wildcard_mask

abbrev pub has_prefix : Text → Text → Bool
has_prefix p s = elim (after_prefix p s) [ none ↦ false | some rest ↦ true ]

-- `SOCKS5URL`
unfoldable pub socks5_url : String → Text
socks5_url addr =
    if str_eq addr ""
    then []
    else if has_prefix (codes "socks5://") (codes addr)
        || has_prefix (codes "socks5h://") (codes addr)
    then codes addr
    else codes "socks5://" ++ codes addr

abbrev pub bool_text : Bool → Text
bool_text true = codes "true"
bool_text false = codes "false"

-- `{{range .Users}}`
unfoldable pub users_text : List UserEntry → Text
users_text [] = []
users_text (u ∷ us) =
    codes "\n[[secret]]\nkey = \""
    ++ (codes u.secret
        ++ (codes "\"\nlabel = \"" ++ (codes u.label ++ (codes "\"\n" ++ users_text us))))

-- `{{if .JA4Log}}`
unfoldable pub stats_text : Bool → Text → Text
stats_text true rest = codes "\n\n[stats]\nja4_log = true" ++ rest
stats_text false rest = rest

-- `{{if .SOCKS5Addr}}`
unfoldable pub socks_text : String → Text → Text
unfolding socks5_url
socks_text addr rest =
    if str_eq addr ""
    then rest
    else codes "\nsocks5 = \"" ++ (socks5_url addr ++ (codes "\"" ++ rest))

-- `{{if .TLSBackend}}`
unfoldable pub domain_text : String → String → Text → Text
domain_text domain backend rest =
    if str_eq backend ""
    then codes "\ndomain = \"" ++ (codes domain ++ (codes "\"" ++ rest))
    else codes "\ndomain = [{ name = \""
      ++ (codes domain ++ (codes "\", backend = \"" ++ (codes backend ++ (codes "\" }]" ++ rest))))

-- `Render`
unfoldable pub render : TeleproxyConfig → Text
unfolding domain_name domain_text socks_text stats_text users_text
render c =
    codes "port = "
    ++ (decimal c.port
        ++ (codes "\nstats_port = "
            ++ (decimal c.stats_port
                ++ (codes "\nhttp_stats = true\ndirect = true\nmss_clamp = "
                    ++ (bool_text c.mss_clamp
                        ++ (codes "\ndc_probe_interval = 60\ndrain_timeout_secs = 60"
                            ++ domain_text (domain_name c) c.tls_backend (
                                socks_text c.socks5_addr
                                  (stats_text c.ja4_log (codes "\n" ++ users_text c.users)))))))))

-- `DetectMode`, `none` where the file cannot be read.
unfoldable pub detect_mode : Option Text → Option String
detect_mode none = none
detect_mode (some s) = some (if contains (codes "socks5 = \"") s then "bridge" else "single")
