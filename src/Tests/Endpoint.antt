-- ===== src/Tests/Endpoint.antt =====
-- Collectors' URLs with the authority "a" and the path "/x".
use logjet.Base.{ℕ, ◌≡◌, refl, true, List, [], ◌∷◌, ◌++◌, ok, err, arith}
use logjet.Error.{invalid_input}
use logjet.Record.{RecordType}
use logjet.Replay.Endpoint.{
  parse, signal_path_for_endpoint, strip_prefix, split_authority_and_path, normalise_path,
}
use logjet.Replay.Routes.{
  http, grpc, path_or_logs, route, http_endpoint_of, grpc_endpoint_of, parse-url,
}

abbrev x_path : List ℕ
x_path = b'/' ∷ b'x' ∷ []

parse_test :
    parse (http true ++ (b'a' ∷ ([] ++ x_path))) ≡ ok (http_endpoint_of true (b'a' ∷ []) x_path)
unfolding parse strip_prefix split_authority_and_path normalise_path
parse_test = refl

parse-url_example :
    (parse (http true ++ (b'a' ∷ ([] ++ x_path))) ≡ ok (http_endpoint_of true (b'a' ∷ []) x_path))
    × ((t : RecordType) → signal_path_for_endpoint (path_or_logs x_path) t ≡ route x_path t)
    × (parse (grpc true ++ (b'a' ∷ [])) ≡ ok (grpc_endpoint_of true (b'a' ∷ [])))
    × (parse (http true ++ x_path) ≡ err invalid_input)
    × (parse (grpc true ++ []) ≡ err invalid_input)
parse-url_example = parse-url true b'a' [] x_path (omega arith, tt) refl
