-- ===== src/Gateway/Dashboard.antt =====
-- apps/api-gateway/src/proxy/dashboard/dashboard.controller.ts: the one page that the gateway makes up
-- itself. The two calls are arguments, given a path and a token.
use Prim.Native.String.{◌++◌}
use oneandro_clone.Prelude.{ℕ, String, ◌≡◌, refl, Bool, true, false, Option, none, some, [], ◌∷◌}
use oneandro_clone.Common.{RequestUser}
use oneandro_clone.Users.Email.{Text}
use oneandro_clone.Gateway.Pipeline.{extract_token, try_verify}

-- What comes of a call: a body, an answer that is no success with its status line, or a failure.
pub data Fetched (Body : Type 0) : Type 0 where
  a_body : Body → Fetched Body
  not_ok : String → String → Fetched Body
  threw : String → Fetched Body

pub record AggregatedSection (Body : Type 0) : Type 0 where
  pub is_ok : Bool
  pub body : Option Body
  pub error : Option String

-- fetchJson
unfoldable pub fetch_json : {Body : Type 0} → Fetched Body → AggregatedSection Body
fetch_json (a_body b) = record { is_ok = true; body = some b; error = none }
fetch_json (not_ok status text) = record {
  is_ok = false;
  body = none;
  error = some (status ++ (" " ++ text));
}
fetch_json (threw message) = record { is_ok = false; body = none; error = some message }

pub data Page (Profile Leads : Type 0) : Type 0 where
  unauthorized : Page Profile Leads
  page_with : AggregatedSection Profile → AggregatedSection Leads → Page Profile Leads

module _ {Profile Leads : Type 0} (get_profile : Text → Fetched Profile)
    (get_leads : Text → Fetched Leads) where
  -- With a token that is not empty.
  unfoldable pub page_for : Option Text → Page Profile Leads
  page_for none = unauthorized
  page_for (some []) = unauthorized
  page_for (some (c ∷ cs)) =
      page_with (fetch_json (get_profile (c ∷ cs))) (fetch_json (get_leads (c ∷ cs)))

  -- getMyDashboard, with the user that the pipeline attached, the cookie and the header.
  unfoldable pub get_my_dashboard :
      Option RequestUser → Option Text → Option Text → Page Profile Leads
  get_my_dashboard none cookie header = unauthorized
  get_my_dashboard (some user) cookie header = page_for (extract_token cookie header)

  shown_when :
      (verify : ℕ → Text → Option RequestUser) (now : ℕ) (token : Option Text) (user : RequestUser)
      → try_verify verify now token ≡ some user
      → (t : Text) × (token ≡ some t)
        × (verify now t ≡ some user)
        × (page_for token ≡ page_with (fetch_json (get_profile t)) (fetch_json (get_leads t)))
  unfolding try_verify page_for
  shown_when verify now none user h = cc
  shown_when verify now (some []) user h = cc
  shown_when verify now (some (c ∷ cs)) user h = (c ∷ cs, refl, h, refl)

  -- Whoever the pipeline has attached to the request sees the page, made with the token that was verified
  -- and with both sections, whatever becomes of the two calls: the second check of the handler
  -- refuses nobody.
  pub get_my_dashboard-try_verify :
      (verify : ℕ → Text → Option RequestUser) (now : ℕ) (cookie header : Option Text)
      (user : RequestUser)
      → try_verify verify now (extract_token cookie header) ≡ some user
      → (t : Text) × (extract_token cookie header ≡ some t)
        × (verify now t ≡ some user)
        × (get_my_dashboard (try_verify verify now (extract_token cookie header)) cookie header
            ≡ page_with (fetch_json (get_profile t)) (fetch_json (get_leads t)))
  unfolding get_my_dashboard
  get_my_dashboard-try_verify verify now cookie header user h =
      rw h (shown_when verify now (extract_token cookie header) user h)
