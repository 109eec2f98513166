-- ===== src/Settings/Validation.antt =====
-- The validations of the settings forms, internal/panel/proxy_settings.go. Texts are ASCII, so that a
-- rune is a byte, and letters and digits are those of ASCII.
use mtproxy_orchestrator.Base.{
  ℕ, Bool, true, false, not, ◌&&◌, ◌||◌, Option, none, some, List, [], ◌∷◌, leb, ltb, ◌==◌, length,
}
use mtproxy_orchestrator.Update.Text.{
  Text, codes, is_digit, split, cut, contains, has_suffix, after_prefix, is_some, atoi, text_eq,
}

abbrev pub is_letter : ℕ → Bool
is_letter c = (leb b'a' c && leb c b'z') || (leb b'A' c && leb c b'Z')

abbrev pub any : (ℕ → Bool) → Text → Bool
any p [] = false
any p (c ∷ s) = p c || any p s

abbrev pub all : (ℕ → Bool) → Text → Bool
all p [] = true
all p (c ∷ s) = p c && all p s

abbrev pub has_prefix : Text → Text → Bool
has_prefix p s = is_some (after_prefix p s)

-- `validateNewPassword`: true where it returns nil.
unfoldable pub is_valid_password : Text → Bool
is_valid_password pw = not (ltb (length pw) 16) && (any is_letter pw && any is_digit pw)

-- `validatePanelPath`
unfoldable pub is_valid_panel_path : Text → Bool
is_valid_panel_path p =
    has_prefix (codes "/") p
    && (has_suffix (codes "/") p
        && (not (ltb (length p) 6) && not (contains (codes "..") p || contains (codes "//") p)))

-- `isValidLogLevel`
unfoldable pub is_valid_log_level : Text → Bool
is_valid_log_level s =
    text_eq s (codes "debug")
    || (text_eq s (codes "info") || (text_eq s (codes "warn") || text_eq s (codes "error")))

abbrev pub is_label_byte : ℕ → Bool
is_label_byte c = is_letter c || (is_digit c || c == b'-')

abbrev ends_with : ℕ → Text → Bool
ends_with d [] = false
ends_with d (c ∷ []) = c == d
ends_with d (c ∷ e ∷ s) = ends_with d (e ∷ s)

abbrev starts_with : ℕ → Text → Bool
starts_with d [] = false
starts_with d (c ∷ s) = c == d

-- The body of the loop over the labels.
abbrev pub is_label : Text → Bool
is_label l =
    not (text_eq l [] || ltb 63 (length l))
    && (not (starts_with b'-' l || ends_with b'-' l) && all is_label_byte l)

abbrev pub all_labels : List Text → Bool
all_labels [] = true
all_labels (l ∷ ls) = is_label l && all_labels ls

-- `isValidMaskHost`
unfoldable pub is_valid_mask_host : Text → Bool
is_valid_mask_host host =
    not (text_eq host [] || ltb 253 (length host))
    && (not (starts_with b'.' host || ends_with b'.' host)
        && (not (ltb (length (split b'.' host)) 2) && all_labels (split b'.' host)))

abbrev mask_behind : Option Text → Bool
mask_behind none = false
mask_behind (some rest) = is_valid_mask_host rest

-- `isValidWildcardMask`
unfoldable pub is_valid_wildcard_mask : Text → Bool
unfolding is_valid_mask_host
is_valid_wildcard_mask host = mask_behind (after_prefix (codes "*.") host)

-- The bytes that the backend must not have: line breaks and quotes.
abbrev pub breaks : ℕ → Bool
breaks c = c == 13 || (c == 10 || c == b'"')

abbrev in_byte : Option ℕ → Bool
in_byte none = false
in_byte (some n) = leb n 255

abbrev all_parts : List Text → Bool
all_parts [] = true
all_parts (p ∷ ps) = (not (text_eq p []) && in_byte (atoi p)) && all_parts ps

-- `isValidIPv4`; the pattern of a negative number is above 255.
unfoldable pub is_valid_ipv4 : Text → Bool
unfolding atoi
is_valid_ipv4 host = length (split b'.' host) == 4 && all_parts (split b'.' host)

abbrev is_number : Option ℕ → Bool
is_number none = false
is_number (some n) = true

abbrev is_host_port : Text → Option Text → Bool
is_host_port host none = false
is_host_port host (some port) =
    not (text_eq host [] || text_eq port [])
    && (is_number (atoi port) && (is_valid_mask_host host || is_valid_ipv4 host))

abbrev is_backend : Text → Option Text → Bool
is_backend backend (some path) = has_prefix (codes "/") path && not (any breaks path)
is_backend backend none =
    let (host, port) = cut b':' backend in not (any breaks backend) && is_host_port host port

-- `isValidTLSBackend`
unfoldable pub is_valid_tls_backend : Text → Bool
unfolding is_valid_mask_host is_valid_ipv4 atoi
is_valid_tls_backend backend = is_backend backend (after_prefix (codes "unix:") backend)
