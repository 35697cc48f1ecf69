-- ===== src/Gateway/Segments.antt =====
-- Routing and the first segment of a path.
use oneandro_clone.Prelude.{
  ◌≡◌, refl, ap, Bool, true, false, not, ◌||◌, [], ◌∷◌, ◌++◌, arith, eqb, all, Bool-cases, inl, inr,
  if◌then◌else◌,
}
use oneandro_clone.Users.Email.{Text, text_eq, text_eq_sound}
use oneandro_clone.Gateway.Routes.{
  codes, starts_with, RouteTarget, proxy, local, not_found, user, lead, ai, is_under, resolve_route,
  is_auth_rate_limit_scope,
}

abbrev pub no_slash : Text → Bool
no_slash s = all (λ c. not (eqb c b'/')) s

-- Who serves the paths below a first segment.
abbrev pub target_of : Text → RouteTarget
target_of segment =
    if text_eq segment (codes "dashboard")
    then local
    else if text_eq segment (codes "auth") || text_eq segment (codes "users")
    then proxy user
    else if text_eq segment (codes "leads")
    then proxy lead
    else if text_eq segment (codes "ai")
    then proxy ai
    else not_found

segment_exact :
    (s n : Text) → no_slash s ≡ true → (text_eq s n || starts_with s (n ++ b'/' ∷ [])) ≡ text_eq s n
unfolding text_eq starts_with
segment_exact [] [] h = refl
segment_exact [] (d ∷ n) h = refl
segment_exact (c ∷ s) [] h = ground arith
segment_exact (c ∷ s) (d ∷ n) h = ground (arith, segment_exact s n)

segment_below :
    (s n rest : Text)
    → no_slash s ≡ true
    → no_slash n ≡ true
    → (text_eq (s ++ b'/' ∷ rest) n || starts_with (s ++ b'/' ∷ rest) (n ++ b'/' ∷ []))
      ≡ text_eq s n
unfolding text_eq starts_with
segment_below [] [] rest h k = refl
segment_below [] (d ∷ n) rest h k = ground arith
segment_below (c ∷ s) [] rest h k = ground arith
segment_below (c ∷ s) (d ∷ n) rest h k = ground (arith, segment_below s n rest)

is_under_exact : (s n : Text) → no_slash s ≡ true → is_under (b'/' ∷ s) (b'/' ∷ n) ≡ text_eq s n
unfolding is_under text_eq starts_with
is_under_exact s n h = segment_exact s n h

is_under_below :
    (s n rest : Text)
    → no_slash s ≡ true
    → no_slash n ≡ true
    → is_under (b'/' ∷ s ++ b'/' ∷ rest) (b'/' ∷ n) ≡ text_eq s n
unfolding is_under text_eq starts_with
is_under_below s n rest h k = segment_below s n rest h k

not_health : (s n rest : Text) → no_slash n ≡ true → text_eq (s ++ b'/' ∷ rest) n ≡ false
unfolding text_eq
not_health [] [] rest k = refl
not_health [] (d ∷ n) rest k = ground arith
not_health (c ∷ s) [] rest k = refl
not_health (c ∷ s) (d ∷ n) rest k = ground (arith, not_health s n rest)

-- A path of one segment, and one that goes on below it, are routed by that segment alone: the health
-- check is the one route without paths below it.
pub resolve_route_lem :
    (segment rest : Text)
    → no_slash segment ≡ true
    → (resolve_route (b'/' ∷ segment)
        ≡ (if text_eq segment (codes "healthz") then local else target_of segment))
      × (resolve_route ((b'/' ∷ segment) ++ b'/' ∷ rest) ≡ target_of segment)
unfolding resolve_route
resolve_route_lem segment rest h = (
  ground (
    arith,
    is_under_exact segment (codes "dashboard") h,
    is_under_exact segment (codes "auth") h,
    is_under_exact segment (codes "users") h,
    is_under_exact segment (codes "leads") h,
    is_under_exact segment (codes "ai") h,
    health segment,
  ),
  ground (
    arith,
    is_under_below segment (codes "dashboard") rest h refl,
    is_under_below segment (codes "auth") rest h refl,
    is_under_below segment (codes "users") rest h refl,
    is_under_below segment (codes "leads") rest h refl,
    is_under_below segment (codes "ai") rest h refl,
    health_below segment rest,
  ),
)
  where
    health : (s : Text) → text_eq (b'/' ∷ s) (codes "/healthz") ≡ text_eq s (codes "healthz")
    health s = unfold text_eq in refl

    health_below : (s rest : Text) → text_eq (b'/' ∷ s ++ b'/' ∷ rest) (codes "/healthz") ≡ false
    health_below s rest = unfold text_eq in not_health s (codes "healthz") rest refl

route_at : (path literal : Text) → path ≡ literal → resolve_route path ≡ resolve_route literal
route_at path literal e = ap resolve_route e

-- The paths with the small quota belong to user-service.
pub is_auth_rate_limit_scope-user :
    (path : Text) → is_auth_rate_limit_scope path ≡ true → resolve_route path ≡ proxy user
unfolding is_auth_rate_limit_scope resolve_route is_under text_eq starts_with
is_auth_rate_limit_scope-user path h = elim (Bool-cases (text_eq path (codes "/auth/login"))) [
  | inl login ↦ route_at path (codes "/auth/login") (text_eq_sound path _ login)
  | inr other ↦ route_at path (codes "/auth/refresh") (text_eq_sound path _ (ground arith))
]
