-- ===== src/Router/Tests.antt =====
-- Prompts that crates/router classifies.
use runloop.Prelude.{◌≡◌, refl, Bool, true, not, ◌&&◌, ◌||◌, [], ◌∷◌, is_nil, any, nat_eq, list_eq}
use runloop.Runtime.Text.{Text, codes, trim, trim_start, trim_end, is_whitespace, strip_prefix}
use runloop.Runtime.Set.{contains}
use runloop.Openings.Strings.{contains_text, split_on}
use runloop.Router.Casefold.{
  to_ascii_lower, ascii_eq_nocase, ascii_contains_nocase, occurs_nocase, starts_nocase,
}
use runloop.Router.Tokens.{
  token_candidates, tokens_from, emit, trim_token, trim_front, trim_back, is_delimiter, is_quote,
}
use runloop.Router.Classifier.{
  Router, with_commands, insert_commands, classify, classify_tokens, is_shell, matches,
  matches_pattern, detect, is_path, scan, scan_token, contains_command, join,
}
use runloop.Router.Routes.{looks_like_command, classify-routes}

abbrev router : Router
router =
    with_commands
      (record {
        fastpath_shell = true;
        default_opening = codes "compose";
        allowlist = codes "deploy" ∷ [];
        denylist = codes "rm -rf" ∷ [];
        known_commands = [];
      })
      (codes "Cargo" ∷ [])

-- a stand-in for the regular expression: no word is refused
abbrev any_text : Text → Bool
any_text s = true

shell_rule :
    (classify any_text router (codes " LS -la ")).rule ≡ codes "simple_command+known_command"
unfolding classify classify_tokens matches_pattern matches with_commands insert_commands contains
    detect is_path scan scan_token contains_command ascii_eq_nocase ascii_contains_nocase
    occurs_nocase starts_nocase to_ascii_lower contains_text split_on strip_prefix token_candidates
    tokens_from emit trim_token trim_front trim_back is_delimiter is_quote is_whitespace trim
    trim_start trim_end any join
shell_rule = refl

blocked : (classify any_text router (codes "RM -rf /tmp")).blocked ≡ true
unfolding classify matches_pattern matches with_commands insert_commands contains
    ascii_contains_nocase occurs_nocase starts_nocase to_ascii_lower trim trim_start trim_end
    is_whitespace
blocked = refl

classify-routes_example :
    let trimmed = trim (codes "ls -la") in
    let denied = any (matches trimmed) router.denylist in
    let allowed = any (matches trimmed) router.allowlist in
    let c = classify any_text router (codes "ls -la") in
    (c.blocked ≡ denied)
    × (is_shell c ≡ (
        denied
        || allowed
        || (not (is_nil trimmed)
            && router.fastpath_shell
            && looks_like_command any_text router trimmed)))
classify-routes_example = classify-routes any_text router (codes "ls -la")
