-- ===== src/Tests/Requests.antt =====
-- A request through the middlewares.
use Prim.Native.Char.{Char, code}
use ldb_backend_hack.Base.{
  nat_eq, Bool, false, ◌&&◌, leb, none, some, List, [], ◌∷◌, ◌≡◌, refl, before_comma, lstrip,
  rstrip,
}
use ldb_backend_hack.Middlewares.{
  Message, response_start, other_message, Scope, correlation_id_of, with_middlewares, ip_address_of,
  normalize_path, sub_numbers, sub_ids,
}
use ldb_backend_hack.Middlewares.Watched.{sends, IsWatched, with_middlewares-IsWatched}
use ldb_backend_hack.Middlewares.Paths.{has_number, has_number-normalize_path}

-- `\d` for ASCII
abbrev ascii_digit : Char → Bool
ascii_digit c = let n = code c in leb 48 n && leb n 57

abbrev sample_scope : Scope
sample_scope = record {
  scope_type = "http";
  method = "GET";
  path = "/accounts/0b7c2f4e-1a2b-4c3d-8e9f-00112233aabb/transactions/42x/7";
  correlation_cookie = none;
  forwarded_for = some " 10.0.0.1 , 10.0.0.2";
  client_host = some "127.0.0.1";
}

abbrev sample_messages : List Message
sample_messages = response_start 404 [] ∷ other_message "http.response.body" "{}" ∷ []

with_middlewares-IsWatched_example :
    IsWatched ascii_digit "U-1" sample_scope sample_messages false
      (with_middlewares ascii_digit "U-1" (sends sample_messages false) sample_scope)
unfolding correlation_id_of
with_middlewares-IsWatched_example =
    with_middlewares-IsWatched ascii_digit "U-1" sample_messages false sample_scope refl

has_number-normalize_path_example :
    has_number ascii_digit (normalize_path ascii_digit "/accounts/42/x") ≡ false
has_number-normalize_path_example = has_number-normalize_path ascii_digit refl refl "/accounts/42/x"

sample_normalize_path :
    normalize_path ascii_digit sample_scope.path ≡ "/accounts/:id/transactions/:numx/:num"
unfolding normalize_path sub_numbers sub_ids nat_eq
sample_normalize_path = refl

sample_ip_address : ip_address_of sample_scope ≡ "10.0.0.1"
unfolding ip_address_of before_comma lstrip rstrip
sample_ip_address = refl
