-- ===== src/Replay/Routes.antt =====
-- Where the requests to a collector go (logjetd/src/replay.rs), by the parts of its URL.
use logjet.Base.{
  ℕ, ◌≡◌, ◌≢◌, refl, ◌∙◌, Bool, true, false, List, [], ◌∷◌, ◌++◌, ◌==◌, ok, err, inl, inr, bytes_eq,
  if◌then◌else◌, Bool-cases, All, arith,
}
use logjet.Error.{invalid_input}
use logjet.Record.{RecordType, logs, metrics, traces, events}
use logjet.Replay.Endpoint.{
  CollectorEndpoint, slash, strip_prefix, split_authority_and_path, normalise_path, http_endpoint,
  grpc_endpoint, parse, standard_path, signal_path_for_endpoint,
}

-- The schemes, by whether they ask for TLS.
abbrev pub http : Bool → List ℕ
http false = b'h' ∷ b't' ∷ b't' ∷ b'p' ∷ b':' ∷ b'/' ∷ b'/' ∷ []
http true = b'h' ∷ b't' ∷ b't' ∷ b'p' ∷ b's' ∷ b':' ∷ b'/' ∷ b'/' ∷ []

abbrev pub grpc : Bool → List ℕ
grpc false = b'g' ∷ b'r' ∷ b'p' ∷ b'c' ∷ b':' ∷ b'/' ∷ b'/' ∷ []
grpc true = b'g' ∷ b'r' ∷ b'p' ∷ b'c' ∷ b's' ∷ b':' ∷ b'/' ∷ b'/' ∷ []

abbrev v1_logs : List ℕ
v1_logs = b'/' ∷ b'v' ∷ b'1' ∷ b'/' ∷ b'l' ∷ b'o' ∷ b'g' ∷ b's' ∷ []

-- OTLP's own paths over HTTP; events go with the logs.
abbrev pub otlp_path : RecordType → List ℕ
otlp_path logs = v1_logs
otlp_path metrics = b'/' ∷ b'v' ∷ b'1' ∷ b'/' ∷ b'm' ∷ b'e' ∷ b't' ∷ b'r' ∷ b'i' ∷ b'c' ∷ b's' ∷ []
otlp_path traces = b'/' ∷ b'v' ∷ b'1' ∷ b'/' ∷ b't' ∷ b'r' ∷ b'a' ∷ b'c' ∷ b'e' ∷ b's' ∷ []
otlp_path events = v1_logs

-- A path that the URL leaves out is that of the logs.
abbrev pub path_or_logs : List ℕ → List ℕ
path_or_logs [] = otlp_path logs
path_or_logs (c ∷ path) = c ∷ path

-- The path of a request, by the path of the URL.
abbrev pub route : List ℕ → RecordType → List ℕ
route [] t = otlp_path t
route (c ∷ path) t = if bytes_eq (c ∷ path) (otlp_path logs) then otlp_path t else c ∷ path

-- Nothing, or a path with its slash.
abbrev pub IsPath : List ℕ → Type 0
IsPath [] = Unit
IsPath (c ∷ path) = c ≡ b'/'

abbrev pub http_endpoint_of : Bool → List ℕ → List ℕ → CollectorEndpoint
http_endpoint_of secure authority path = record {
  authority = authority;
  path = path_or_logs path;
  tls = secure;
  grpc = false;
}

abbrev pub grpc_endpoint_of : Bool → List ℕ → CollectorEndpoint
grpc_endpoint_of secure authority = record {
  authority = authority;
  path = [];
  tls = secure;
  grpc = true;
}

standard_path-otlp_path : (t : RecordType) → standard_path t ≡ otlp_path t
standard_path-otlp_path logs = refl
standard_path-otlp_path metrics = refl
standard_path-otlp_path traces = refl
standard_path-otlp_path events = refl

signal_path-route :
    (path : List ℕ) (t : RecordType) → signal_path_for_endpoint (path_or_logs path) t ≡ route path t
unfolding signal_path_for_endpoint
signal_path-route [] t = standard_path-otlp_path t
signal_path-route (c ∷ path) t = elim (Bool-cases (bytes_eq (c ∷ path) (otlp_path logs))) [
  | inl e ↦ rw e (standard_path-otlp_path t)
  | inr e ↦ rw e refl
]

split-url :
    (authority path : List ℕ)
    → All (λ c. c ≢ b'/') authority
    → IsPath path
    → split_authority_and_path (authority ++ path) ≡ (authority, path_or_logs path)
unfolding split_authority_and_path
split-url [] [] h k = refl
split-url [] (c ∷ path) h k = rw k refl
split-url (c ∷ authority) path (h, hs) k =
    let plain : (c == slash) ≡ false = ground arith in
    rw (plain, split-url authority path hs k) refl

normalise-path_or_logs :
    (path : List ℕ) → IsPath path → normalise_path (path_or_logs path) ≡ path_or_logs path
unfolding normalise_path
normalise-path_or_logs [] h = refl
normalise-path_or_logs (c ∷ path) h = rw h refl

http_endpoint-url :
    (secure : Bool) (c : ℕ) (authority path : List ℕ)
    → All (λ d. d ≢ b'/') (c ∷ authority)
    → IsPath path
    → http_endpoint secure (c ∷ (authority ++ path))
      ≡ ok (http_endpoint_of secure (c ∷ authority) path)
http_endpoint-url secure c authority path h k =
    rw (split-url (c ∷ authority) path h k, normalise-path_or_logs path k) refl

http_endpoint-empty :
    (secure : Bool) (path : List ℕ) → IsPath path → http_endpoint secure path ≡ err invalid_input
http_endpoint-empty secure path k = rw (split-url [] path tt k) refl

parse-http :
    (secure : Bool) (rest : List ℕ) → parse (http secure ++ rest) ≡ http_endpoint secure rest
unfolding parse strip_prefix
parse-http false rest = refl
parse-http true rest = refl

parse-grpc :
    (secure : Bool) (rest : List ℕ) → parse (grpc secure ++ rest) ≡ grpc_endpoint secure rest
unfolding parse strip_prefix
parse-grpc false rest = refl
parse-grpc true rest = refl

-- A collector's URL is taken apart as it is written: for an authority c ∷ authority that has no slash, and
-- a path that is empty or begins with one, `http` and `https` give an endpoint with that authority, TLS
-- for `https` alone, whose requests go to the path itself, and to OTLP's own path for their type of
-- record where the path is empty or that of the logs; `grpc` and `grpcs` give one for gRPC with that
-- authority, TLS for `grpcs` alone, and no path; and without an authority each fails with
-- `invalid_input`.
pub parse-url :
    (secure : Bool) (c : ℕ) (authority path : List ℕ)
    → All (λ d. d ≢ b'/') (c ∷ authority)
    → IsPath path
    → (parse (http secure ++ (c ∷ (authority ++ path)))
        ≡ ok (http_endpoint_of secure (c ∷ authority) path))
      × ((t : RecordType) → signal_path_for_endpoint (path_or_logs path) t ≡ route path t)
      × (parse (grpc secure ++ (c ∷ authority)) ≡ ok (grpc_endpoint_of secure (c ∷ authority)))
      × (parse (http secure ++ path) ≡ err invalid_input)
      × (parse (grpc secure ++ []) ≡ err invalid_input)
parse-url secure c authority path h k = (
  parse-http secure (c ∷ (authority ++ path)) ∙ http_endpoint-url secure c authority path h k,
  signal_path-route path,
  parse-grpc secure (c ∷ authority),
  parse-http secure path ∙ http_endpoint-empty secure path k,
  parse-grpc secure [],
)
