-- ===== src/Router/Routes.antt =====
-- Where the router of crates/router/src/classifier.rs sends a prompt.
use runloop.Prelude.{
  ℕ, ◌+◌, ◌<◌, ◌≡◌, refl, ◌∙◌, inl, inr, Bool, true, false, not, ◌&&◌, ◌||◌, Option, none, some,
  List, [], ◌∷◌, ◌++◌, arith, if◌then◌else◌, Bool-cases, Option-cases, ◌==◌, is_nil, any, nat_eq,
}
use runloop.Runtime.Text.{Text, codes, trim}
use runloop.Openings.Strings.{contains_text}
use runloop.Router.Tokens.{token_candidates}
use runloop.Router.Classifier.{
  Route, Classification, Pattern, Router, Hits, is_shell, matches, matches_pattern, posix_tokens,
  push_feature, detect, is_known, scan_token, scan, contains_command, classify_tokens, classify,
}

abbrev pub first_is : (Text → Bool) → List Text → Bool
first_is f [] = false
first_is f (token ∷ _) = f token

abbrev is_some : Option Pattern → Bool
is_some none = false
is_some (some _) = true

matches_pattern-any :
    (patterns : List Pattern) (prompt : Text)
    → is_some (matches_pattern patterns prompt) ≡ any (matches prompt) patterns
unfolding matches_pattern any
matches_pattern-any [] prompt = refl
matches_pattern-any (p ∷ patterns) prompt = ground (arith, matches_pattern-any patterns prompt)

detect-any :
    (needles : List Text) (trimmed : Text) (found : Bool × List Text)
    → (detect needles trimmed found).0
      ≡ (found.0 || any (λ needle. contains_text needle trimmed) needles)
unfolding detect any
detect-any [] trimmed (b, features) = ground arith
detect-any (needle ∷ needles) trimmed (b, features) = ground (
  arith,
  detect-any needles trimmed (true, push_feature (codes "token:" ++ needle) features),
  detect-any needles trimmed (b, features),
)

bool_known : (a b k r : Bool) → a ≡ (b || k) → (a || r) ≡ (b || (k || r))
bool_known a b k r h = ground arith

module _ (router : Router) where
  scan_token-known :
      (idx : ℕ) (token : Text) (hits : Hits)
      → let after = scan_token router idx token hits in
        (after.has_known_command ≡ (hits.has_known_command || is_known router token))
        × (after.first_token_is_command
            ≡ (hits.first_token_is_command || (idx == 0 && is_known router token)))
  unfolding scan_token
  scan_token-known idx token hits = ground arith

  scan-later :
      (idx : ℕ) (tokens : List Text) (hits : Hits)
      → 0 < idx
      → let after = scan router idx tokens hits in
        (after.has_known_command ≡ (hits.has_known_command || any (is_known router) tokens))
        × (after.first_token_is_command ≡ hits.first_token_is_command)
  unfolding scan any
  scan-later idx [] hits h = ground arith
  scan-later idx (token ∷ tokens) hits h =
      let hits' = scan_token router idx token hits in
      let now = scan_token-known idx token hits in
      let later = scan-later (idx + 1) tokens hits' (omega arith) in
      let known =
        bool_known hits'.has_known_command hits.has_known_command (is_known router token)
          (any (is_known router) tokens) now.0 in
      (later.0 ∙ known, later.1 ∙ ground (arith, now.1))

  scan-first :
      (tokens : List Text) (hits : Hits)
      → let after = scan router 0 tokens hits in
        (after.has_known_command ≡ (hits.has_known_command || any (is_known router) tokens))
        × (after.first_token_is_command
            ≡ (hits.first_token_is_command || first_is (is_known router) tokens))
  unfolding scan any
  scan-first [] hits = ground arith
  scan-first (token ∷ tokens) hits =
      let hits' = scan_token router 0 token hits in
      let now = scan_token-known 0 token hits in
      let later = scan-later 1 tokens hits' (ground arith) in
      let known =
        bool_known hits'.has_known_command hits.has_known_command (is_known router token)
          (any (is_known router) tokens) now.0 in
      (later.0 ∙ known, later.1 ∙ now.1)

-- the condition under which a prompt goes to the shell without an override
abbrev pub looks_like_command : (Text → Bool) → Router → Text → Bool
looks_like_command simple_command router trimmed =
    let tokens = token_candidates trimmed in
    any (is_known router) tokens
    && (any (λ needle. contains_text needle trimmed) posix_tokens
        || (simple_command trimmed && first_is (is_known router) tokens))

route-if :
    (b : Bool) (x y : Classification)
    → x.route ≡ Route.shell
    → y.route ≡ Route.agent
    → is_shell (if b then x else y) ≡ b
unfolding is_shell
route-if true x y h g = rw h refl
route-if false x y h g = rw g refl

blocked-if :
    (b : Bool) (x y : Classification)
    → x.blocked ≡ false
    → y.blocked ≡ false
    → (if b then x else y).blocked ≡ false
blocked-if true x y h g = h
blocked-if false x y h g = g

condition :
    (s : Bool) {h h' t t' f f' : Bool}
    → h ≡ h'
    → t ≡ t'
    → f ≡ f'
    → (h && (t || (s && f))) ≡ (h' && (t' || (s && f')))
condition s a b c = rw (a, b, c) refl

classify_tokens-routes :
    (simple_command : Text → Bool) (router : Router) (trimmed : Text)
    → let c = classify_tokens simple_command router trimmed in
      (is_shell c ≡ looks_like_command simple_command router trimmed) × (c.blocked ≡ false)
unfolding classify_tokens
classify_tokens-routes simple_command router trimmed =
    let tokens = token_candidates trimmed in
    let d = detect-any posix_tokens trimmed (false, []) in
    let found = (detect posix_tokens trimmed (false, [])).1 in
    let k = scan-first router tokens (record {
      features =
          if simple_command trimmed
          then push_feature (codes "pattern:simple_command") found
          else found;
      command_hits = [];
      has_known_command = false;
      first_token_is_command = false;
    }) in
    (
      route-if _ _ _ refl refl ∙ condition (simple_command trimmed) k.0 d k.1,
      blocked-if _ _ _ refl refl,
    )

agent_route :
    (rule reason : Text) (features : List Text)
    → is_shell (record {
      route = Route.agent;
      rule = rule;
      features = features;
      reason = reason;
      blocked = false;
    })
      ≡ false
unfolding is_shell
agent_route rule reason features = refl

module _ (simple_command : Text → Bool) (router : Router) (prompt : Text) where
  classify-denied :
      (p : Pattern)
      → matches_pattern router.denylist (trim prompt) ≡ some p
      → let c = classify simple_command router prompt in (c.blocked ≡ true) × (is_shell c ≡ true)
  unfolding classify is_shell
  classify-denied p e = (rw (e, classify) refl, rw (e, classify) refl)

  classify-allowed :
      (p : Pattern)
      → matches_pattern router.denylist (trim prompt) ≡ none
      → matches_pattern router.allowlist (trim prompt) ≡ some p
      → let c = classify simple_command router prompt in (c.blocked ≡ false) × (is_shell c ≡ true)
  unfolding classify is_shell
  classify-allowed p d e = (rw (d, e, classify) refl, rw (d, e, classify) refl)

  classify-plain :
      matches_pattern router.denylist (trim prompt) ≡ none
      → matches_pattern router.allowlist (trim prompt) ≡ none
      → let c = classify simple_command router prompt in
        (c.blocked ≡ false)
        × (is_shell c ≡ (
            not (is_nil (trim prompt))
            && router.fastpath_shell
            && looks_like_command simple_command router (trim prompt)))
  unfolding classify classify_tokens scan scan_token contains_command
  classify-plain d e =
      let (shell, open_) = classify_tokens-routes simple_command router (trim prompt) in
      elim (Bool-cases (is_nil (trim prompt))) [
        | inl n ↦ (rw (d, e, n, classify) refl, rw (d, e, n, classify) (agent_route _ _ _))
        | inr n ↦ elim (Bool-cases router.fastpath_shell) [
          | inr f ↦ (rw (d, e, n, f, classify) refl, rw (d, e, n, f, classify) (agent_route _ _ _))
          | inl f ↦ (rw (d, e, n, f, classify) open_, rw (d, e, n, f, classify) shell)
        ]
      ]

  -- A prompt is blocked exactly when it matches the denylist. It goes to the shell exactly when it
  -- matches the denylist or the allowlist, or when it is not blank, the fast path is on, one of its
  -- tokens is a known command or a path, and either it has a POSIX token or it is a simple command
  -- whose first token is such a one; otherwise it goes to an agent.
  pub classify-routes :
      let trimmed = trim prompt in
      let denied = any (matches trimmed) router.denylist in
      let allowed = any (matches trimmed) router.allowlist in
      let c = classify simple_command router prompt in
      (c.blocked ≡ denied)
      × (is_shell c ≡ (
          denied
          || allowed
          || (not (is_nil trimmed)
              && router.fastpath_shell
              && looks_like_command simple_command router trimmed)))
  classify-routes =
      let d = matches_pattern-any router.denylist (trim prompt) in
      let a = matches_pattern-any router.allowlist (trim prompt) in
      elim (Option-cases (matches_pattern router.denylist (trim prompt))) [
        | inr (p, e) ↦ ground (arith, classify-denied p e)
        | inl e ↦ elim (Option-cases (matches_pattern router.allowlist (trim prompt))) [
          | inr (p, f) ↦ ground (arith, classify-allowed p e f)
          | inl f ↦ ground (arith, classify-plain e f)
        ]
      ]
