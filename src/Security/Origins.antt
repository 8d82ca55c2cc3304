-- ===== src/Security/Origins.antt =====
-- backend/app/security/origins.py: which requests of a browser reach a handler.
use recon_ledger.Prelude.{
  Bool, false, ◌&&◌, not, Option, none, some, List, [], ◌∷◌, if◌then◌else◌, Text, codes, text_eq,
  mem_text, starts_with,
}

-- The method, and the headers that count.
pub record Request : Type 0 where
  pub method : Text
  pub origin : Option Text
  pub content_length : Option Text
  pub content_type : Option Text

-- `forbidden` is status 403, `unsupported_media_type` status 415.
pub data Verdict : Type 0 where
  accepted forbidden unsupported_media_type : Verdict

abbrev pub allowed_frontend_origins : List Text
allowed_frontend_origins = codes "http://localhost:5173" ∷ codes "http://127.0.0.1:5173" ∷ []

abbrev pub state_changing_methods : List Text
state_changing_methods = codes "POST" ∷ codes "PUT" ∷ codes "PATCH" ∷ codes "DELETE" ∷ []

abbrev pub body_methods : List Text
body_methods = codes "POST" ∷ codes "PUT" ∷ codes "PATCH" ∷ []

-- `origin is not None and origin not in ALLOWED_FRONTEND_ORIGINS`
abbrev pub is_foreign : Option Text → Bool
is_foreign none = false
is_foreign (some o) = not (mem_text o allowed_frontend_origins)

-- `content_length is not None and content_length != "0"`
abbrev pub has_body : Option Text → Bool
has_body none = false
has_body (some n) = not (text_eq n (codes "0"))

abbrev pub is_json : Option Text → Bool
is_json none = starts_with [] (codes "application/json")
is_json (some t) = starts_with t (codes "application/json")

unfoldable pub enforce_local_origin_and_content_type : Request → Verdict
unfolding mem_text text_eq starts_with
enforce_local_origin_and_content_type r =
    if not (mem_text r.method state_changing_methods)
    then accepted
    else if is_foreign r.origin
    then forbidden
    else if mem_text r.method body_methods
        && (has_body r.content_length && not (is_json r.content_type))
    then unsupported_media_type
    else accepted
