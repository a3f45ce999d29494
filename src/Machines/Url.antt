-- ===== src/Machines/Url.antt =====
-- web/src/state/machines.ts, lines 10-59, and web/src/state/machine-modal.ts, lines 275-286: the URL of a
-- machine. The platform's `URL` is a parameter.
use whats_going_on.Prelude.{
  ℕ, drop, Bool, true, false, not, ◌&&◌, ◌||◌, Option, none, some, [], ◌∷◌, ◌++◌, leb, ◌==◌,
  if◌then◌else◌,
}
use whats_going_on.Wire.Message.{Text}
use whats_going_on.Explorer.Model.{same_text}

-- A value, or the message of the error that was thrown.
pub data Attempt (A : Type 0) : Type 0 where
  gives : A → Attempt A
  fails : Text → Attempt A

-- `URL` and `String.prototype.trim`: what this code calls of the platform.
pub record UrlApi : Type 1 where
  pub Url : Type 0
  pub parse : Text → Attempt Url
  pub protocol : Url → Text
  pub hostname : Url → Text
  pub pathname : Url → Text
  pub set_port : Text → Url → Url
  pub set_pathname : Text → Url → Url
  pub clear_search : Url → Url
  pub clear_hash : Url → Url
  pub to_text : Url → Text
  pub trim : Text → Text

-- "https:", "https://", "9012" and "Machine URL must use https".
abbrev pub https_protocol : Text
https_protocol = 104 ∷ 116 ∷ 116 ∷ 112 ∷ 115 ∷ 58 ∷ []

abbrev pub https_prefix : Text
https_prefix = 104 ∷ 116 ∷ 116 ∷ 112 ∷ 115 ∷ 58 ∷ 47 ∷ 47 ∷ []

abbrev pub default_machine_port : Text
default_machine_port = 57 ∷ 48 ∷ 49 ∷ 50 ∷ []

abbrev pub must_use_https : Text
must_use_https =
    77 ∷ 97 ∷ 99 ∷ 104 ∷ 105 ∷ 110 ∷ 101 ∷ 32 ∷ 85 ∷ 82 ∷ 76 ∷ 32 ∷ 109 ∷ 117 ∷ 115 ∷ 116 ∷ 32 ∷ 117
    ∷ 115 ∷ 101 ∷ 32 ∷ 104 ∷ 116 ∷ 116 ∷ 112 ∷ 115 ∷ []

abbrev is_letter : ℕ → Bool
is_letter u = (leb 65 u && leb u 90) || (leb 97 u && leb u 122)

abbrev is_digit : ℕ → Bool
is_digit u = leb 48 u && leb u 57

abbrev is_scheme_unit : ℕ → Bool
is_scheme_unit u = is_letter u || is_digit u || (u == 43) || (u == 46) || (u == 45)

abbrev starts_with : Text → Text → Bool
starts_with [] us = true
starts_with (c ∷ cs) [] = false
starts_with (c ∷ cs) (u ∷ us) = (c == u) && starts_with cs us

-- What follows the letter in `/^[a-z][a-z0-9+.-]*:\/\//i`.
abbrev scheme_rest : Text → Bool
scheme_rest [] = false
scheme_rest (u ∷ us) =
    let more = scheme_rest us in
    if is_scheme_unit u then more else starts_with (58 ∷ 47 ∷ 47 ∷ []) (u ∷ us)

unfoldable pub has_scheme : Text → Bool
has_scheme [] = false
has_scheme (u ∷ us) = is_letter u && scheme_rest us

-- What stands behind the first "://"; without one, behind the first two units (`-1 + 3`).
abbrev after_scheme : Text → Option Text
after_scheme [] = none
after_scheme (u ∷ us) =
    let later = after_scheme us in
    if starts_with (58 ∷ 47 ∷ 47 ∷ []) (u ∷ us) then some (drop 2 us) else later

-- Up to the first `/`, `?` or `#`.
abbrev authority : Text → Text
authority [] = []
authority (u ∷ us) =
    let rest = authority us in if (u == 47) || (u == 63) || (u == 35) then [] else u ∷ rest

abbrev all_digits : Text → Bool
all_digits [] = true
all_digits (u ∷ us) = is_digit u && all_digits us

abbrev is_empty : Text → Bool
is_empty [] = true
is_empty (u ∷ us) = false

-- `/:\d+$/`.
abbrev ends_with_port : Text → Bool
ends_with_port [] = false
ends_with_port (u ∷ us) = ((u == 58) && not (is_empty us) && all_digits us) || ends_with_port us

-- `[^\]]+\]:\d+$` behind the opening bracket; `inside` tells that a unit was passed.
abbrev bracket_port : Bool → Text → Bool
bracket_port inside [] = false
bracket_port inside (u ∷ us) =
    let more = bracket_port true us in if u == 93 then inside && colon_port us else more
  where
    colon_port : Text → Bool
    colon_port [] = false
    colon_port (u ∷ us) = (u == 58) && not (is_empty us) && all_digits us

unfoldable pub has_explicit_port : Text → Bool
has_explicit_port raw_url =
    go (authority (elim (after_scheme raw_url) [ some rest ↦ rest | none ↦ drop 2 raw_url ]))
  where
    go : Text → Bool
    go [] = false
    go (u ∷ us) = if u == 91 then bracket_port false us else ends_with_port (u ∷ us)

-- `replace(/\/+$/, "")`, and `replace(/\/$/, "")`.
abbrev strip_slashes : Text → Text
strip_slashes [] = []
strip_slashes (u ∷ us) =
    let rest = strip_slashes us in if (u == 47) && is_empty rest then [] else u ∷ rest

abbrev strip_slash : Text → Text
strip_slash [] = []
strip_slash (u ∷ us) =
    let rest = strip_slash us in if (u == 47) && is_empty us then [] else u ∷ rest

-- Up to the first dot, and whether there is one.
abbrev first_label : Text → Text
first_label [] = []
first_label (u ∷ us) = let rest = first_label us in if u == 46 then [] else u ∷ rest

abbrev has_dot : Text → Bool
has_dot [] = false
has_dot (u ∷ us) = (u == 46) || has_dot us

abbrev has_letter : Text → Bool
has_letter [] = false
has_letter (u ∷ us) = is_letter u || has_letter us

module _ (w : UrlApi) where
  -- The port, the path, the search and the hash of a machine's URL.
  abbrev with_parts : Bool → w.Url → Text
  with_parts has_port url =
      let with_port = if has_port then url else w.set_port default_machine_port url in
      let with_path = w.set_pathname (strip_slashes (w.pathname with_port)) with_port in
      strip_slash (w.to_text (w.clear_hash (w.clear_search with_path)))

  unfoldable pub normalize_machine_url : Text → Attempt Text
  unfolding has_scheme has_explicit_port
  normalize_machine_url raw =
      let trimmed = w.trim raw in
      let with_scheme = if has_scheme trimmed then trimmed else https_prefix ++ trimmed in
      elim (w.parse with_scheme) [
        | fails message ↦ fails message
        | gives url ↦
            if same_text (w.protocol url) https_protocol
            then gives (with_parts (has_explicit_port with_scheme) url)
            else fails must_use_https
      ]

  unfoldable pub infer_machine_name_from_url : Text → Text
  unfolding normalize_machine_url
  infer_machine_name_from_url raw = elim (normalize_machine_url raw) [
    | fails message ↦ []
    | gives normalized ↦ elim (w.parse normalized) [
      | fails message ↦ []
      | gives url ↦
          let hostname = w.hostname url in
          if has_dot hostname && has_letter (first_label hostname)
          then first_label hostname
          else hostname
    ]
  ]
