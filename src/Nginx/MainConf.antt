-- ===== src/Nginx/MainConf.antt =====
-- internal/nginx/mainconf.go: raising two directives of the main nginx.conf. A text is a list of bytes,
-- and each of the four regular expressions, which match within one line, is a function on lines.
pub mod Lines
pub mod Raising
pub mod Breaks
pub mod Stable
use mtproxy_orchestrator.Base.{
  ℕ, Bool, true, false, ◌&&◌, ◌||◌, not, Option, none, some, List, [], ◌∷◌, ◌++◌, leb, ltb, ◌==◌,
  if◌then◌else◌,
}
use mtproxy_orchestrator.Update.Text.{Text, codes, split, after_prefix, is_digit, atoi}

-- `[ \t]`
abbrev pub is_blank : ℕ → Bool
is_blank c = c == b' ' || c == 9

-- The bytes that pass a test at the start, and what follows them.
unfoldable pub span : (ℕ → Bool) → Text → Text × Text
span p [] = ([], [])
span p (c ∷ s) = let rest = span p s in if p c then (c ∷ rest.0, rest.1) else ([], c ∷ s)

abbrev pub starts_with : (ℕ → Bool) → Text → Bool
starts_with p [] = false
starts_with p (c ∷ s) = p c

-- `[ \t]*;`
unfoldable pub ends_directive : Text → Bool
unfolding span
ends_directive s = starts_with (λ c. c == b';') (span is_blank s).1

-- `(\d+)[ \t]*;.*$`
unfoldable pub digits_of_value : Text → Option Text
unfolding span ends_directive
digits_of_value s =
    let (digits, rest) = span is_digit s in
    if starts_with is_digit s && ends_directive rest then some digits else none

-- `[ \t]+(\d+)[ \t]*;.*$`
unfoldable pub directive_value : Option Text → Option Text
unfolding digits_of_value span
directive_value none = none
directive_value (some s) =
    if starts_with is_blank s then digits_of_value (span is_blank s).1 else none

abbrev pub with_indent : Text → Option Text → Option (Text × Text)
with_indent indent none = none
with_indent indent (some digits) = some (indent, digits)

-- `workerConnectionsRe` and `workerRlimitRe` on a line: its indentation and its digits.
unfoldable pub match_directive : Text → Text → Option (Text × Text)
unfolding directive_value span
match_directive name line =
    let (indent, rest) = span is_blank line in
    with_indent indent (directive_value (after_prefix name rest))

abbrev is_empty : Text → Bool
is_empty [] = true
is_empty (c ∷ s) = false

-- `\{[ \t]*$`
unfoldable pub opens_block : Option Text → Bool
unfolding span
opens_block none = false
opens_block (some []) = false
opens_block (some (c ∷ s)) = c == b'{' && is_empty (span is_blank s).1

abbrev pub after_blanks : Option Text → Option Text
after_blanks none = none
after_blanks (some s) = some (span is_blank s).1

-- `eventsOpenRe`
unfoldable pub is_events_open : Text → Bool
unfolding span opens_block
is_events_open line =
    opens_block (after_blanks (after_prefix (codes "events") (span is_blank line).1))

-- `\s`
abbrev is_white : ℕ → Bool
is_white c = c == b' ' || (c == 9 || (c == 10 || (c == 12 || c == 13)))

-- `\S*[ \t]*;.*$`, behind a first byte that is not white.
word_ends_directive : Text → Bool
unfolding ends_directive
word_ends_directive [] = false
word_ends_directive (c ∷ s) =
    let rest = word_ends_directive s in
    c == b';' || (if is_white c then ends_directive (c ∷ s) else rest)

-- `[ \t]+\S+[ \t]*;.*$`
unfoldable pub has_word_value : Option Text → Bool
unfolding span word_ends_directive
has_word_value none = false
has_word_value (some s) =
    starts_with is_blank s
    && elim (span is_blank s).1 [ [] ↦ false | c ∷ t ↦ not (is_white c) && word_ends_directive t ]

-- `workerProcessesRe`
unfoldable pub is_worker_processes : Text → Bool
unfolding span has_word_value
is_worker_processes line =
    has_word_value (after_prefix (codes "worker_processes") (span is_blank line).1)

-- A setting with its floor: the name, the floor, and its decimal text.
pub record Setting : Type 0 where
  pub name : Text
  pub floor : ℕ
  pub digits : Text

abbrev pub connections : Setting
connections = record { name = codes "worker_connections"; floor = 4096; digits = codes "4096" }

abbrev pub nofile : Setting
nofile = record { name = codes "worker_rlimit_nofile"; floor = 16384; digits = codes "16384" }

-- `name + " " + strconv.Itoa(floor) + "; " + mainConfMarker`
unfoldable pub managed : Setting → Text
managed st = st.name ++ (b' ' ∷ (st.digits ++ codes "; # managed by tgproxy"))

abbrev pub below : ℕ → Option ℕ → Bool
below floor none = false
below floor (some v) = ltb v floor

-- The line with a directive as `patchDirective` leaves it.
unfoldable pub raise : Setting → Text × Text → Text → Text
unfolding managed atoi
raise st (indent, digits) line = if below st.floor (atoi digits) then indent ++ managed st else line

abbrev pub raise_matched : Setting → Option (Text × Text) → Text → List Text → List Text → List Text
raise_matched st none line ls rest = line ∷ rest
raise_matched st (some m) line ls rest = raise st m line ∷ ls

-- `patchDirective`: the first line that matches.
unfoldable pub patch_directive : Setting → List Text → List Text
unfolding match_directive raise
patch_directive st [] = []
patch_directive st (l ∷ ls) =
    raise_matched st (match_directive st.name l) l ls (patch_directive st ls)

abbrev pub or_else {ℓ} : {A : Type ℓ} → Option A → Option A → Option A
or_else none rest = rest
or_else (some m) rest = some m

-- What a matcher finds on the first line that it matches, as `FindStringIndex` finds it.
unfoldable pub first {ℓ} : {A : Type ℓ} → (Text → Option A) → List Text → Option A
first match [] = none
first match (l ∷ ls) = or_else (match l) (first match ls)

-- `s[:end] + "\n" + line + s[end:]`, behind the first line that passes the test.
unfoldable pub insert_after : (Text → Bool) → Text → List Text → List Text
insert_after p new [] = []
insert_after p new (l ∷ ls) =
    let rest = insert_after p new ls in if p l then l ∷ new ∷ ls else l ∷ rest

unfoldable pub insert_missing : Option (Text × Text) → (Text → Bool) → Text → List Text → List Text
unfolding insert_after
insert_missing none p new ls = insert_after p new ls
insert_missing (some m) p new ls = ls

-- One half of `PatchMainConf`: the patch of a directive, and its insertion where there is none.
unfoldable pub settle : Setting → (Text → Bool) → Text → List Text → List Text
unfolding patch_directive insert_missing match_directive first
settle st p new ls =
    let patched = patch_directive st ls in
    insert_missing (first (match_directive st.name) patched) p new patched

unfoldable pub patch_lines : List Text → List Text
unfolding settle is_events_open is_worker_processes
patch_lines ls =
    settle nofile is_worker_processes (managed nofile)
      (settle connections is_events_open (codes "    " ++ managed connections) ls)

abbrev pub join_lines : List Text → Text
join_lines [] = []
join_lines (l ∷ []) = l
join_lines (l ∷ k ∷ ls) = l ++ (10 ∷ join_lines (k ∷ ls))

unfoldable pub patch_main_conf : Text → Text
unfolding patch_lines
patch_main_conf s = join_lines (patch_lines (split 10 s))
