-- ===== src/Mcp/Auth.antt =====
-- src/mcp/auth.ts: who may call the MCP endpoint, and which tools it has. `trim` followed by `toLowerCase`
-- on a host, and SHA-256, are arguments; a digest is a text.
use Prim.Native.Char.{Char, code}
use whyrouted.Prelude.{
  ℕ, ◌+◌, ◌==◌, String, str_append, str_eq, str_eq_iff, str_eq_refl, Bool, true, false, not, ◌&&◌,
  ◌||◌, Option, none, some, List, [], ◌∷◌, if◌then◌else◌, ◌≡◌, ◌≢◌, ◌↔◌, ap, ◌∙◌, arith, inl, inr,
  Option-cases,
}

abbrev pub is_loopback : String → Bool
is_loopback host = str_eq host "127.0.0.1" || str_eq host "::1" || str_eq host "localhost"

-- A letter of the scheme in either case; `lower` is the code of the small one.
abbrev is_letter : ℕ → Char → Bool
is_letter lower c = code c == lower || code c + 32 == lower

-- What `.` does not match.
abbrev is_line_end : Char → Bool
is_line_end c = code c == 10 || code c == 13 || code c == 0x2028 || code c == 0x2029

unfoldable pub has_line_end : String → Bool
has_line_end String.[] = false
has_line_end (String.◌∷◌ c s) = is_line_end c || has_line_end s

-- The rest of a text after these small letters, in any case, and a space.
unfoldable pub after_scheme : List ℕ → String → Option String
after_scheme _ String.[] = none
after_scheme [] (String.◌∷◌ c s) = if code c == 32 then some s else none
after_scheme (l ∷ ls) (String.◌∷◌ c s) =
    let rest = after_scheme ls s in if is_letter l c then rest else none

abbrev pub bearer_letters : List ℕ
bearer_letters = 98 ∷ 101 ∷ 97 ∷ 114 ∷ 101 ∷ 114 ∷ []

abbrev credentials : Option String → Option String
credentials none = none
credentials (some rest) = if str_eq rest "" || has_line_end rest then none else some rest

-- `/^bearer (.+)$/i.exec(header)`, the group.
unfoldable pub bearer_group : String → Option String
bearer_group header = credentials (after_scheme bearer_letters header)

module _ (sha256 : String → String) where
  abbrev digests_match : String → Option String → Bool
  digests_match token none = false
  digests_match token (some group) = str_eq (sha256 group) (sha256 token)

  abbrev header_matches : String → Option String → Bool
  header_matches token none = false
  header_matches token (some header) = digests_match token (bearer_group header)

  unfoldable pub bearer_matches : Option String → String → Bool
  bearer_matches header token = not (str_eq token "") && header_matches token header

pub data ActionPolicy : Type 0 where
  allowed : ActionPolicy
  denied : String → ActionPolicy

abbrev pub has_token : Option String → Bool
has_token none = false
has_token (some token) = not (str_eq token "")

abbrev pub no_token_reason : String → String
no_token_reason host =
    str_append "action tools are not registered: the MCP server is bound to "
      (str_append host " with no token. Set WR_MCP_TOKEN (at least 16 characters) to enable them.")

module _ (normalized : String → String) where
  unfoldable pub is_loopback_host : String → Bool
  is_loopback_host host = is_loopback (normalized host)

  unfoldable pub action_tools_allowed : String → Option String → ActionPolicy
  action_tools_allowed host token =
      if has_token token
      then allowed
      else if is_loopback_host host
      then allowed
      else denied (no_token_reason host)

-- SHA-256 is taken to have no two texts in use with one digest.
abbrev pub IsInjective : (String → String) → Type 0
IsInjective f = (a b : String) → f a ≡ f b → a ≡ b

-- With a hash without collisions, a request passes exactly when the token is not empty and its header is
-- the scheme `Bearer`, in any case, one space and the token itself, which holds no line end.
pub bearer_matches_iff :
    (sha256 : String → String) (header token : String)
    → IsInjective sha256
    → (bearer_matches sha256 (some header) token ≡ true) ↔ (
        (token ≢ "")
        × (has_line_end token ≡ false)
        × (after_scheme bearer_letters header ≡ some token))
unfolding bearer_matches bearer_group
bearer_matches_iff sha256 header token inj =
    elim (Option-cases (after_scheme bearer_letters header)) [
      | inl e ↦ (λ h. ground (arith, e), λ h. ground (arith, e))
      | inr (rest, e) ↦ (
        λ h.
            let same : rest ≡ token =
              inj rest token (ground (arith, e, str_eq_iff (sha256 rest) (sha256 token))) in
            (
              λ n. ground (arith, e, str_eq_iff token ""),
              ground (arith, e, same),
              e ∙ ap some same,
            ),
        λ (full, one_line, same).
            ground
              (arith, e, same, str_eq_iff token "", str_eq_iff rest "", str_eq_refl (sha256 token)),
      )
    ]
