-- ===== src/Gateway/Routes.antt =====
-- apps/api-gateway/src/proxy/route-table.ts
use Prim.Native.Char.{code}
use oneandro_clone.Prelude.{
  ℕ, String, ◌≡◌, refl, Bool, true, false, ◌&&◌, ◌||◌, [], ◌∷◌, ◌++◌, arith, eqb, length, drop,
  if◌then◌else◌,
}
use oneandro_clone.Users.Email.{Text, text_eq, text_eq_refl}

-- The code units of a literal of the source, all of them ASCII.
abbrev pub codes : String → Text
codes String.[] = []
codes (String.◌∷◌ c s) = code c ∷ codes s

unfoldable pub starts_with : Text → Text → Bool
starts_with path [] = true
starts_with [] (p ∷ ps) = false
starts_with (c ∷ cs) (p ∷ ps) = eqb c p && starts_with cs ps

pub data Service : Type 0 where
  user lead ai : Service

pub data RouteTarget : Type 0 where
  proxy : Service → RouteTarget
  local not_found : RouteTarget

-- `path === name || path.startsWith(`${name}/`)`
unfoldable pub is_under : Text → Text → Bool
is_under path name = text_eq path name || starts_with path (name ++ b'/' ∷ [])

unfoldable pub resolve_route : Text → RouteTarget
resolve_route path =
    if text_eq path (codes "/healthz")
    then local
    else if is_under path (codes "/dashboard")
    then local
    else if is_under path (codes "/auth")
    then proxy user
    else if is_under path (codes "/users")
    then proxy user
    else if is_under path (codes "/leads")
    then proxy lead
    else if is_under path (codes "/ai")
    then proxy ai
    else not_found

unfoldable pub is_auth_rate_limit_scope : Text → Bool
is_auth_rate_limit_scope path =
    text_eq path (codes "/auth/login") || text_eq path (codes "/auth/refresh")

-- `text || '/'`
abbrev pub or_slash : Text → Text
or_slash [] = b'/' ∷ []
or_slash (c ∷ cs) = c ∷ cs

unfoldable pub strip_api_prefix : Text → Text → Text
strip_api_prefix path prefix =
    if text_eq path prefix
    then b'/' ∷ []
    else if starts_with path (prefix ++ b'/' ∷ [])
    then or_slash (drop (length prefix) path)
    else path

starts_with-append : (p q : Text) → starts_with (p ++ q) p ≡ true
unfolding starts_with
starts_with-append [] q = refl
starts_with-append (c ∷ p) q = ground (arith, starts_with-append p q)

append-slash : (p q : Text) → starts_with (p ++ b'/' ∷ q) (p ++ b'/' ∷ []) ≡ true
unfolding starts_with
append-slash [] q = refl
append-slash (c ∷ p) q = ground (arith, append-slash p q)

longer : (p q : Text) (c : ℕ) → text_eq (p ++ c ∷ q) p ≡ false
unfolding text_eq
longer [] q c = refl
longer (d ∷ p) q c = ground (arith, longer p q c)

drop-append : (p q : Text) → drop (length p) (p ++ q) ≡ q
drop-append [] q = refl
drop-append (c ∷ p) q = drop-append p q

-- The prefix is taken off, and nothing else: what is left is the path that the service exposes, "/"
-- for the prefix alone.
pub strip_api_prefix-append :
    (prefix path : Text)
    → (strip_api_prefix prefix prefix ≡ codes "/")
      × (strip_api_prefix (prefix ++ b'/' ∷ path) prefix ≡ b'/' ∷ path)
unfolding strip_api_prefix
strip_api_prefix-append prefix path = (rw text_eq_refl, rw (longer, append-slash, drop-append))
