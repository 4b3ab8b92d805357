-- ===== src/ApiClient/Query.antt =====
-- Sessions of pkg/api/client.go: the instance is in the query, and is read back from it.
use openconnectd.Base.{
  ◌≡◌, refl, true, false, not, any, [], ◌∷◌, ◌++◌, some, Text, codes, same, arith, all-append, ◌==◌,
  ℕ,
}
use openconnectd.Strings.{index_byte}
use openconnectd.HttpApi.Url.{query_escape, query_unescape, split, path_unescape}
use openconnectd.HttpApi.Url.Laws.{
  AreBytes, lacks, query_unescape-query_escape, query_escape-lacks, split-one,
}
use openconnectd.HttpApi.Mux.{
  locate, to_list_sessions, select, routes, match, parse_target, query_get, pair_value,
}
use openconnectd.ApiClient.Calls.{sessions_path}
use openconnectd.ApiClient.Paths.{arrives}

any-lacks : (b : ℕ) (s : Text) → lacks b s ≡ true → any (λ c. c == b) s ≡ false
any-lacks b [] h = refl
any-lacks b (c ∷ s) h = ground (arith, any-lacks b s)

no_semicolon : (n : Text) → AreBytes n → any (λ c. c == b';') (query_escape n) ≡ false
no_semicolon n h = any-lacks b';' (query_escape n) (query_escape-lacks n h).1

query_get-one :
    (k query v : Text)
    → split b'&' query ≡ query ∷ []
    → pair_value k query ≡ some v
    → query_get k query ≡ v
unfolding query_get
query_get-one k query v one pair = rw (one, pair) refl

escaped_pair : Text → Text
escaped_pair n = codes "instance=" ++ query_escape n

module _ (n : Text) (h : AreBytes n) where
  pair_is_read : pair_value (codes "instance") (escaped_pair n) ≡ some n
  unfolding pair_value index_byte same escaped_pair
  pair_is_read =
      let key : query_unescape (codes "instance") ≡ some (codes "instance") =
        unfold query_unescape in refl in
      rw (no_semicolon n h, key, query_unescape-query_escape n h) refl

  pair_is_one : split b'&' (escaped_pair n) ≡ escaped_pair n ∷ []
  unfolding escaped_pair
  pair_is_one = split-one b'&' (codes "instance=" ++ query_escape n) (
      ground (
        arith,
        all-append (λ c. not (c == b'&')) (codes "instance=") (query_escape n),
        (query_escape-lacks n h).0,
      ))

  read_instance : query_get (codes "instance") (escaped_pair n) ≡ n
  read_instance = query_get-one (codes "instance") (escaped_pair n) n pair_is_one pair_is_read

-- Sessions reaches its handler, which reads the instance as it was, or none if none was given.
sessions_path_lem :
    (n : Text)
    → AreBytes n
    → (arrives (codes "GET") (sessions_path n) ≡ some (to_list_sessions, []))
      × (query_get (codes "instance") (parse_target (sessions_path n)).1 ≡ n)
unfolding sessions_path index_byte
sessions_path_lem [] h = (
  unfold locate select routes match same path_unescape split in refl,
  unfold query_get pair_value split same query_unescape index_byte in refl,
)
sessions_path_lem (c ∷ n) h = (
  unfold locate select routes match same path_unescape split in refl,
  unfold escaped_pair in read_instance (c ∷ n) h,
)
