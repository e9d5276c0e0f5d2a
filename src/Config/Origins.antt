-- ===== src/Config/Origins.antt =====
-- internal/config/origins.go: the origins that the API allows to browsers.
use Prim.Native.Char.{code}
use signa.Config.{
  Error, Env, Url, empty_origin, blank_in_origin, bad_origin, bad_port, wildcard_origin, bad_scheme,
  no_host, not_only_authority,
}
use signa.Prelude.{
  ℕ, String, Bool, false, not, ◌&&◌, ◌||◌, Option, none, some, List, [], ◌∷◌, ◌++◌, ◌==◌,
  if◌then◌else◌, str_eq,
}
use signa.Prelude.Result.{Result, ok, err, ◌>>=◌, fail_if, ◌>>◌}
use signa.Prelude.Text.{trim_text, contains_codes, contains, concat, is_space, codes}

abbrev pub has_space : List ℕ → Bool
has_space [] = false
has_space (c ∷ s) = is_space c || has_space s

abbrev pub holds : String → String → Bool
holds s part = contains_codes (codes s) (codes part)

abbrev pub is_empty_text : String → Bool
is_empty_text s = str_eq s ""

abbrev pub starts_with_bracket : List ℕ → Bool
starts_with_bracket [] = false
starts_with_bracket (c ∷ s) = c == b'['

-- `strings.Split(value, ",")`: the part that is read, and the rest.
unfoldable pub split_commas : String → String → List String
split_commas String.[] part = part ∷ []
split_commas (String.◌∷◌ c s) part =
    let rest = split_commas s String.[] in
    let more = split_commas s (concat part (String.◌∷◌ c String.[])) in
    if code c == b',' then part ∷ rest else more

-- `seen[canonicalOrigin]`: an origin that was met is left out.
abbrev pub append_new : List String → String → List String
append_new origins origin = if contains origins origin then origins else origins ++ (origin ∷ [])

module _ {F : Type 0} (env : Env F) where
  abbrev pub check_port : String → String → Result Error String
  check_port scheme port = if is_empty_text port then ok "" else elim (env.parse_uint16 port) [
    | none ↦ err bad_port
    | some n ↦ ok (
        if (str_eq scheme "http" && not (n == 80)) || (str_eq scheme "https" && not (n == 443))
        then concat ":" port
        else "")
  ]

  abbrev pub bracketed : String → String
  bracketed host = if holds host ":" then concat (concat "[" host) "]" else host

  abbrev pub normalize_url : Url → Result Error String
  normalize_url url = do
    let scheme = env.to_lower url.scheme
    fail_if (not (str_eq scheme "http" || str_eq scheme "https")) bad_scheme
    fail_if (is_empty_text url.host || is_empty_text url.hostname) no_host
    fail_if
        (url.has_user
          || not (is_empty_text url.path)
          || not (is_empty_text url.raw_query)
          || not (is_empty_text url.fragment)
          || not (is_empty_text url.opaque))
        not_only_authority
    fail_if
        (is_empty_text url.port && holds url.host ":" && not (starts_with_bracket (codes url.host)))
        bad_port
    port ← check_port scheme url.port
    ok (concat (concat (concat scheme "://") (bracketed (env.to_lower url.hostname))) port)

  abbrev pub normalize_parsed : Option Url → Result Error String
  normalize_parsed none = err bad_origin
  normalize_parsed (some url) = normalize_url url

  -- `normalizeWebOrigin`.
  unfoldable pub normalize_web_origin : String → Result Error String
  unfolding contains_codes is_space
  normalize_web_origin origin = do
    fail_if (holds origin "*") wildcard_origin
    fail_if (has_space (codes origin)) blank_in_origin
    normalize_parsed (env.parse_url origin)

  -- One candidate of the loop.
  abbrev pub canonical : String → Result Error String
  canonical candidate = do
    let origin = trim_text candidate
    fail_if (is_empty_text origin) empty_origin
    normalize_web_origin origin

  -- The loop of `webAllowedOriginsFromEnv`.
  unfoldable pub read_origins : List String → List String → Result Error (List String)
  unfolding normalize_web_origin trim_text contains
  read_origins [] origins = ok origins
  read_origins (candidate ∷ candidates) origins =
      canonical candidate >>= λ origin. read_origins candidates (append_new origins origin)

  -- `webAllowedOriginsFromEnv`.
  unfoldable pub web_allowed_origins_from_env : Result Error (List String)
  unfolding split_commas read_origins trim_text
  web_allowed_origins_from_env =
      let value = trim_text (env.getenv "SIGNA_WEB_ALLOWED_ORIGINS") in
      if is_empty_text value
      then ok ("http://localhost:3000" ∷ [])
      else read_origins (split_commas value "") []
