-- ===== src/Token/Keycloak.antt =====
-- discoverKeycloakCredentials of api-gateway/src/services/oauth2.ts. The answers to its three requests
-- are arguments; an answer that is not good is none.
use cantontrace.Base.{
  append-nil, ◌>>=◌, ℕ, List, [], ◌∷◌, ◌++◌, Option, none, some, Str, text, Bool, true, false, ◌&&◌,
  not, ◌==◌, ◌===◌, ===_ne, if◌then◌else◌, All, ◌≡◌, ◌≢◌, refl, arith,
}
use cantontrace.Runtime.Text.{some_of, span, some_of-append}

pub record KeycloakClient : Type 0 where
  pub id : Str
  pub client_id : Str
  pub service_accounts_enabled : Bool
  pub enabled : Bool

pub record Issuer : Type 0 where
  pub base_url : Str
  pub realm : Str

pub record Credentials : Type 0 where
  pub client_id : Str
  pub client_secret : Str

abbrev pub default_client_id : Str
default_client_id = text "app-provider-backend"

abbrev pub not_slash : ℕ → Bool
not_slash c = not (c == b'/')

-- The text after a literal.
unfoldable pub strip_prefix : Str → Str → Option Str
strip_prefix [] s = some s
strip_prefix (c ∷ p) [] = none
strip_prefix (c ∷ p) (d ∷ s) = if d == c then strip_prefix p s else none

-- `https?:\/\/`, with what it matched.
unfoldable pub scheme : Str → Option (Str × Str)
scheme s = elim (strip_prefix (text "https://") s) [
  | some rest ↦ some (text "https://", rest)
  | none ↦ (strip_prefix (text "http://") s >>= λ rest. some (text "http://", rest))
]

-- `\/?$`.
abbrev pub at_end : Str → Bool
at_end [] = true
at_end (c ∷ []) = c == b'/'
at_end (c ∷ d ∷ s) = false

-- ^(https?:\/\/[^/]+)\/realms\/([^/]+)\/?$ : no group can give back a character, since what follows it
-- begins with a slash or is the end.
unfoldable pub parse_keycloak_issuer_url : Str → Option Issuer
parse_keycloak_issuer_url url = do
  opening ← scheme url
  host ← some_of not_slash opening.1
  rest ← strip_prefix (text "/realms/") host.1
  realm ← some_of_end rest
  some (record { base_url = opening.0 ++ host.0; realm = realm })
  where
    some_of_end : Str → Option Str
    some_of_end s = do realm ← some_of not_slash s; if at_end realm.1 then some realm.0 else none

-- `clients.find(...)`.
unfoldable pub find : (KeycloakClient → Bool) → List KeycloakClient → Option KeycloakClient
find p [] = none
find p (c ∷ cs) = if p c then some c else find p cs

unfoldable pub filter_enabled : List KeycloakClient → List KeycloakClient
filter_enabled [] = []
filter_enabled (c ∷ cs) = let rest = filter_enabled cs in if c.enabled then c ∷ rest else rest

abbrev pub is_preferred : KeycloakClient → Bool
is_preferred c = c.client_id === default_client_id && c.service_accounts_enabled

abbrev pub or_else : Option KeycloakClient → Option KeycloakClient → Option KeycloakClient
or_else none next = next
or_else (some c) next = some c

unfoldable pub service_account_client : List KeycloakClient → Option KeycloakClient
service_account_client clients =
    or_else (find is_preferred clients) (find (λ c. c.service_accounts_enabled) clients)

-- An empty token or secret counts as none.
abbrev pub truthy : Str → Option Str
truthy [] = none
truthy (c ∷ s) = some (c ∷ s)

-- `admin_token base`, `list_clients base realm token` and `client_secret base realm id token` are
-- what the requests give.
unfoldable pub discover_keycloak_credentials :
    (Str → Option Str)
    → (Str → Str → Str → Option (List KeycloakClient))
    → (Str → Str → Str → Str → Option Str)
    → Str
    → Option Credentials
discover_keycloak_credentials admin_token list_clients client_secret issuer_url = do
  issuer ← parse_keycloak_issuer_url issuer_url
  answer ← admin_token issuer.base_url
  token ← truthy answer
  clients ← list_clients issuer.base_url issuer.realm token
  client ← service_account_client (filter_enabled clients)
  reply ← client_secret issuer.base_url issuer.realm client.id token
  secret ← truthy reply
  some (record { client_id = client.client_id; client_secret = secret })

strip_prefix-append : (p s : Str) → strip_prefix p (p ++ s) ≡ some s
unfolding strip_prefix
strip_prefix-append [] s = refl
strip_prefix-append (c ∷ p) s = ground (arith, strip_prefix-append p s)

-- The issuer URL of a realm, with or without TLS and a slash at the end.
abbrev pub issuer_url : Bool → Bool → Str → Str → Str
issuer_url tls slash host realm =
    (if tls then text "https://" else text "http://")
    ++ (host ++ (text "/realms/" ++ (realm ++ (if slash then b'/' ∷ [] else []))))

abbrev pub IsSegment : Str → Type 0
IsSegment s = (s ≢ []) × All (λ c. not_slash c ≡ true) s

span_of_All : (p : ℕ → Bool) (s : Str) → All (λ c. p c ≡ true) s → span p s ≡ (s, [])
span_of_All p [] h = refl
span_of_All p (c ∷ s) (q, h) = rw (q, span_of_All p s h) refl

some_of_segment : (s : Str) → IsSegment s → some_of not_slash s ≡ some (s, [])
unfolding some_of
some_of_segment s (ne, h) = rw (some_of, span_of_All not_slash s h, ===_ne s [] ne) refl

realm_lem :
    (slash : Bool) (realm : Str)
    → IsSegment realm
    → some_of not_slash (realm ++ (if slash then b'/' ∷ [] else []))
      ≡ some (realm, if slash then b'/' ∷ [] else [])
realm_lem true realm h = some_of-append not_slash realm [] b'/' h refl
realm_lem false realm h = rw (append-nil realm) (some_of_segment realm h)

-- The issuer URL of a realm on a host, of which neither is empty or has a slash, is read back as the
-- address of the host and the realm.
pub parse_keycloak_issuer_url-issuer_url :
    (tls slash : Bool) (host realm : Str)
    → IsSegment host
    → IsSegment realm
    → parse_keycloak_issuer_url (issuer_url tls slash host realm)
      ≡ some (record {
        base_url = (if tls then text "https://" else text "http://") ++ host;
        realm = realm;
      })
unfolding parse_keycloak_issuer_url scheme strip_prefix
parse_keycloak_issuer_url-issuer_url true true host realm h r =
    rw (some_of-append not_slash host _ b'/' h refl, realm_lem true realm r) refl
parse_keycloak_issuer_url-issuer_url true false host realm h r =
    rw (some_of-append not_slash host _ b'/' h refl, realm_lem false realm r) refl
parse_keycloak_issuer_url-issuer_url false true host realm h r =
    rw (some_of-append not_slash host _ b'/' h refl, realm_lem true realm r) refl
parse_keycloak_issuer_url-issuer_url false false host realm h r =
    rw (some_of-append not_slash host _ b'/' h refl, realm_lem false realm r) refl
