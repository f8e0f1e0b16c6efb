-- ===== src/Replay/Endpoint.antt =====
-- `CollectorEndpoint` of logjetd/src/replay.rs: its URL and the paths of its requests. Texts are lists of
-- character codes.
use logjet.Base.{
  ℕ, Bool, true, false, ◌||◌, List, [], ◌∷◌, Option, none, some, ◌==◌, if◌then◌else◌, bytes_eq,
  Result, ok, err,
}
use logjet.Error.{ErrorKind, invalid_input}
use logjet.Record.{RecordType, logs, metrics, traces, events}

pub record CollectorEndpoint : Type 0 where
  pub authority : List ℕ
  pub path : List ℕ
  pub tls : Bool
  pub grpc : Bool

abbrev pub slash : ℕ
slash = 47

-- "/v1/logs", "/v1/metrics" and "/v1/traces"
abbrev pub logs_path : List ℕ
logs_path = 47 ∷ 118 ∷ 49 ∷ 47 ∷ 108 ∷ 111 ∷ 103 ∷ 115 ∷ []

abbrev pub metrics_path : List ℕ
metrics_path = 47 ∷ 118 ∷ 49 ∷ 47 ∷ 109 ∷ 101 ∷ 116 ∷ 114 ∷ 105 ∷ 99 ∷ 115 ∷ []

abbrev pub traces_path : List ℕ
traces_path = 47 ∷ 118 ∷ 49 ∷ 47 ∷ 116 ∷ 114 ∷ 97 ∷ 99 ∷ 101 ∷ 115 ∷ []

-- "grpc://", "grpcs://", "http://" and "https://"
abbrev pub grpc_scheme : List ℕ
grpc_scheme = 103 ∷ 114 ∷ 112 ∷ 99 ∷ 58 ∷ 47 ∷ 47 ∷ []

abbrev pub grpcs_scheme : List ℕ
grpcs_scheme = 103 ∷ 114 ∷ 112 ∷ 99 ∷ 115 ∷ 58 ∷ 47 ∷ 47 ∷ []

abbrev pub http_scheme : List ℕ
http_scheme = 104 ∷ 116 ∷ 116 ∷ 112 ∷ 58 ∷ 47 ∷ 47 ∷ []

abbrev pub https_scheme : List ℕ
https_scheme = 104 ∷ 116 ∷ 116 ∷ 112 ∷ 115 ∷ 58 ∷ 47 ∷ 47 ∷ []

unfoldable pub strip_prefix : List ℕ → List ℕ → Option (List ℕ)
strip_prefix [] text = some text
strip_prefix (p ∷ prefix) [] = none
strip_prefix (p ∷ prefix) (c ∷ text) =
    let rest = strip_prefix prefix text in if p == c then rest else none

abbrev pub onto_authority : ℕ → List ℕ × List ℕ → List ℕ × List ℕ
onto_authority c parts = (c ∷ parts.0, parts.1)

unfoldable pub split_authority_and_path : List ℕ → List ℕ × List ℕ
split_authority_and_path [] = ([], logs_path)
split_authority_and_path (c ∷ text) =
    let rest = split_authority_and_path text in
    if c == slash then ([], c ∷ text) else onto_authority c rest

unfoldable pub normalise_path : List ℕ → List ℕ
normalise_path [] = logs_path
normalise_path (c ∷ path) = if c == slash then c ∷ path else slash ∷ (c ∷ path)

abbrev pub unless_empty : List ℕ → CollectorEndpoint → Result ErrorKind CollectorEndpoint
unless_empty [] endpoint = err invalid_input
unless_empty (c ∷ authority) endpoint = ok endpoint

abbrev pub grpc_endpoint : Bool → List ℕ → Result ErrorKind CollectorEndpoint
grpc_endpoint tls authority =
    unless_empty authority (record { authority = authority; path = []; tls = tls; grpc = true })

abbrev pub http_endpoint : Bool → List ℕ → Result ErrorKind CollectorEndpoint
http_endpoint tls rest =
    let (authority, path) = split_authority_and_path rest in
    unless_empty authority
      (record { authority = authority; path = normalise_path path; tls = tls; grpc = false })

abbrev pub or_else :
    Option (List ℕ)
    → (List ℕ → Result ErrorKind CollectorEndpoint)
    → Result ErrorKind CollectorEndpoint
    → Result ErrorKind CollectorEndpoint
or_else (some rest) f later = f rest
or_else none f later = later

unfoldable pub parse : List ℕ → Result ErrorKind CollectorEndpoint
parse input = or_else (strip_prefix grpc_scheme input) (grpc_endpoint false) (
    or_else (strip_prefix grpcs_scheme input) (grpc_endpoint true) (
      or_else (strip_prefix http_scheme input) (http_endpoint false) (
        or_else (strip_prefix https_scheme input) (http_endpoint true)
          (ok (record { authority = input; path = logs_path; tls = false; grpc = false })))))

abbrev pub standard_path : RecordType → List ℕ
standard_path logs = logs_path
standard_path metrics = metrics_path
standard_path traces = traces_path
standard_path events = logs_path

abbrev pub is_empty : List ℕ → Bool
is_empty [] = true
is_empty (c ∷ cs) = false

unfoldable pub signal_path_for_endpoint : List ℕ → RecordType → List ℕ
signal_path_for_endpoint base_path record_type =
    if bytes_eq base_path logs_path || is_empty base_path
    then standard_path record_type
    else base_path
