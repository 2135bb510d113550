-- ===== src/Router/Classifier.antt =====
-- The classification of a prompt, crates/router/src/classifier.rs.
use runloop.Prelude.{
  ℕ, ◌+◌, Bool, true, false, not, ◌&&◌, ◌||◌, Option, none, some, List, [], ◌∷◌, ◌++◌, map, ltb,
  if◌then◌else◌, ◌==◌, length, is_nil, any, nat_eq, list_eq,
}
use runloop.Runtime.Text.{Text, codes, trim, strip_prefix}
use runloop.Runtime.Set.{contains, set_insert}
use runloop.Openings.Strings.{contains_text}
use runloop.Router.Builtins.{builtin_commands}
use runloop.Router.Casefold.{to_ascii_lowercase, ascii_eq_nocase, ascii_contains_nocase}
use runloop.Router.Tokens.{token_candidates}

pub data Route : Type 0 where
  shell agent : Route

pub record Classification : Type 0 where
  pub route : Route
  pub rule : Text
  pub features : List Text
  pub reason : Text
  pub blocked : Bool

unfoldable pub is_shell : Classification → Bool
is_shell c = elim c.route [ Route.shell ↦ true | Route.agent ↦ false ]

pub record Pattern : Type 0 where
  pub raw : Text
  pub lower : Text

-- Pattern::new
abbrev pub pattern_of : Text → Pattern
pattern_of value = record { raw = value; lower = to_ascii_lowercase value }

unfoldable pub matches : Text → Pattern → Bool
matches prompt pattern_ = not (is_nil pattern_.lower) && ascii_contains_nocase prompt pattern_.lower

pub record RouterConfig : Type 0 where
  pub fastpath_shell : Bool
  pub default_opening : Text
  pub allowlist : List Text
  pub denylist : List Text
  pub known_commands : List Text

pub record Router : Type 0 where
  pub fastpath_shell : Bool
  pub default_opening : Text
  pub allowlist : List Pattern
  pub denylist : List Pattern
  pub known_commands : List Text

unfoldable pub insert_commands : List Text → List Text → List Text
insert_commands [] known = known
insert_commands (cmd ∷ cmds) known =
    insert_commands cmds (set_insert (to_ascii_lowercase cmd) known)

unfoldable pub with_commands : RouterConfig → List Text → Router
with_commands config extra_commands = record {
  fastpath_shell = config.fastpath_shell;
  default_opening = config.default_opening;
  allowlist = map pattern_of config.allowlist;
  denylist = map pattern_of config.denylist;
  known_commands =
      insert_commands extra_commands
        (insert_commands config.known_commands (insert_commands (map codes builtin_commands) []));
}

-- `find`
unfoldable pub matches_pattern : List Pattern → Text → Option Pattern
matches_pattern [] prompt = none
matches_pattern (pattern_ ∷ patterns) prompt =
    let rest = matches_pattern patterns prompt in
    if matches prompt pattern_ then some pattern_ else rest

unfoldable pub contains_command : Router → Text → Bool
contains_command router token = any (λ known. ascii_eq_nocase known token) router.known_commands

abbrev pub posix_tokens : List Text
posix_tokens = codes "&&" ∷ codes "||" ∷ codes "|" ∷ codes ">" ∷ codes "<" ∷ codes ";" ∷ []

abbrev pub push_feature : Text → List Text → List Text
push_feature feature features = set_insert feature features

-- the loop over POSIX_TOKENS: whether one was found, and the features
unfoldable pub detect : List Text → Text → Bool × List Text → Bool × List Text
detect [] trimmed found = found
detect (needle ∷ needles) trimmed (token_detected, features) = detect needles trimmed (
    if contains_text needle trimmed
    then (true, push_feature (codes "token:" ++ needle) features)
    else (token_detected, features))

abbrev starts_with : Text → Text → Bool
starts_with prefix_ s = elim (strip_prefix prefix_ s) [ none ↦ false | some _ ↦ true ]

unfoldable pub is_path : Text → Bool
is_path token =
    starts_with (codes "./") token
    || starts_with (codes "../") token
    || (starts_with (codes "/") token && ltb 1 (length token))

-- the variables of the loop over the tokens
pub record Hits : Type 0 where
  pub features : List Text
  pub command_hits : List Text
  pub has_known_command : Bool
  pub first_token_is_command : Bool

module _ (router : Router) where
  abbrev pub is_known : Text → Bool
  is_known token = is_path token || contains_command router token

  unfoldable pub scan_token : ℕ → Text → Hits → Hits
  scan_token idx token hits =
      let lower_token = to_ascii_lowercase token in
      let feature =
        if is_path token then codes "path:" ++ lower_token else codes "cmd:" ++ lower_token in
      let new = not (contains lower_token hits.command_hits) in
      if is_known token
      then record {
        features = if new then push_feature feature hits.features else hits.features;
        command_hits = if new then hits.command_hits ++ lower_token ∷ [] else hits.command_hits;
        has_known_command = true;
        first_token_is_command = idx == 0 || hits.first_token_is_command;
      }
      else hits

  unfoldable pub scan : ℕ → List Text → Hits → Hits
  scan idx [] hits = hits
  scan idx (token ∷ tokens) hits = scan (idx + 1) tokens (scan_token idx token hits)

-- `join(", ")`
unfoldable pub join : List Text → Text
join [] = []
join (x ∷ []) = x
join (x ∷ y ∷ xs) = x ++ codes ", " ++ join (y ∷ xs)

abbrev route_agent : Text → List Text → Text → Classification
route_agent rule features reason = record {
  route = Route.agent;
  rule = rule;
  features = features;
  reason = reason;
  blocked = false;
}

abbrev overridden : Text → Text → Bool → Pattern → Classification
overridden rule reason blocked pattern_ = record {
  route = Route.shell;
  rule = rule;
  features = (codes "pattern:" ++ pattern_.raw) ∷ [];
  reason = reason ++ codes " pattern '" ++ pattern_.raw ++ codes "'";
  blocked = blocked;
}

-- `simple_command` is `SIMPLE_COMMAND.is_match`.
module _ (simple_command : Text → Bool) (router : Router) where
  abbrev opening_name : Text
  opening_name = codes " opening '" ++ router.default_opening ++ codes "'"

  -- behind the overrides and the two early returns
  unfoldable pub classify_tokens : Text → Classification
  classify_tokens trimmed =
      let (token_detected, found) = detect posix_tokens trimmed (false, []) in
      let matches_simple = simple_command trimmed in
      let hits = scan router 0 (token_candidates trimmed) (record {
        features =
            if matches_simple then push_feature (codes "pattern:simple_command") found else found;
        command_hits = [];
        has_known_command = false;
        first_token_is_command = false;
      }) in
      if hits.has_known_command
        && (token_detected || (matches_simple && hits.first_token_is_command))
      then record {
        route = Route.shell;
        rule =
            if token_detected
            then codes "posix_token+known_command"
            else codes "simple_command+known_command";
        features = hits.features;
        reason =
            (if token_detected
              then codes "matched POSIX token(s) with command(s): "
              else codes "matched simple command: ")
            ++ join hits.command_hits;
        blocked = false;
      }
      else route_agent (codes "fallback:opening") hits.features (
          (if hits.has_known_command
            then codes "command-like tokens present but missing routing heuristics; using"
            else codes "no known command detected; routing to")
          ++ opening_name)

  unfoldable pub classify : Text → Classification
  classify prompt =
      let trimmed = trim prompt in
      elim (matches_pattern router.denylist trimmed) [
        | some p ↦
            overridden (codes "override:denylist") (codes "prompt matched router.denylist") true p
        | none ↦ elim (matches_pattern router.allowlist trimmed) [
          | some p ↦
              overridden (codes "override:allowlist") (codes "prompt matched router.allowlist")
                false p
          | none ↦
              if is_nil trimmed
              then route_agent (codes "fallback:empty") []
                  (codes "empty prompt; routing to" ++ opening_name)
              else if not router.fastpath_shell
              then route_agent (codes "fastpath_disabled")
                  (codes "config:fastpath_shell=false" ∷ [])
                  (codes "router.fastpath_shell disabled; routing to" ++ opening_name)
              else classify_tokens trimmed
        ]
      ]
