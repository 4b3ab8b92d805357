-- ===== src/Metrics.antt =====
-- internal/metrics/exporter.go: the state as Prometheus text. `%g` is a parameter: it prints the
-- shortest decimal of a float64.
pub mod Labels
pub mod Scrape
use openconnectd.Base.{
  ℕ, suc, ◌+◌, ◌≡◌, Bool, true, false, ◌&&◌, ◌||◌, List, [], ◌∷◌, ◌++◌, map, concat, Text, codes,
  same, length, keep, if◌then◌else◌,
}
use openconnectd.Base.Int.{ℤ, pos}
use openconnectd.Errors.{Result, ok, err}
use openconnectd.Exec.{Exec}
use openconnectd.Api.{Instance, Session}
use openconnectd.Render.Routes.{text_le}
use openconnectd.Metrics.Labels.{labels}

-- Source: what the exporter reads of the manager.
pub record Source (S : Type 0) : Type 0 where
  pub list_instances : S → List Instance
  pub sessions : Text → Exec S (List Session)

-- sort.Slice with a `less` that `le` is the negation of, the other way round. The source leaves the order
-- of equal keys open; here it stays.
unfoldable pub put_sorted : {A : Type 0} → (A → A → Bool) → A → List A → List A
put_sorted le x [] = x ∷ []
put_sorted le x (y ∷ ys) = let rest = y ∷ put_sorted le x ys in if le x y then x ∷ y ∷ ys else rest

unfoldable pub sort_slice : {A : Type 0} → (A → A → Bool) → List A → List A
unfolding put_sorted
sort_slice le [] = []
sort_slice le (x ∷ xs) = put_sorted le x (sort_slice le xs)

abbrev pub name_le : Instance → Instance → Bool
name_le a b = text_le a.name b.name

abbrev pub session_le : Session → Session → Bool
session_le a b =
    if same a.instance_name b.instance_name
    then text_le a.common_name b.common_name
    else text_le a.instance_name b.instance_name

unfoldable pub by_name : List Instance → List Instance
unfolding sort_slice
by_name xs = sort_slice name_le xs

unfoldable pub by_user : List Session → List Session
unfolding sort_slice
by_user xs = sort_slice session_le xs

-- `byInstance[name]`
unfoldable pub session_count : Text → List Session → ℕ
session_count name xs = length (keep (λ s. same s.instance_name name) xs)

abbrev bit : Bool → ℤ
bit true = pos 1
bit false = pos 0

unfoldable pub help : Text → Text → Text → Text
help name kind text =
    codes "# HELP "
    ++ name
    ++ codes " "
    ++ text
    ++ codes "\n# TYPE "
    ++ name
    ++ codes " "
    ++ kind
    ++ codes "\n"

-- The arrow in two of the texts is one character of three bytes.
abbrev arrow : ℕ → Text
arrow last = 0xE2 ∷ 0x86 ∷ last ∷ []

unfoldable pub helps : Text
unfolding help
helps =
    help (codes "openconnect_instance_up") (codes "gauge")
      (codes "1 if the ocserv instance process is up.")
    ++ help (codes "openconnect_instance_sessions") (codes "gauge")
        (codes "Currently connected sessions per instance.")
    ++ help (codes "openconnect_instance_clients") (codes "gauge")
        (codes "Provisioned clients per instance.")
    ++ help (codes "openconnect_user_rx_bytes_total") (codes "counter")
        (codes "Bytes received from the client (server" ++ arrow 0x90 ++ codes " client).")
    ++ help (codes "openconnect_user_tx_bytes_total") (codes "counter")
        (codes "Bytes sent to the client (server" ++ arrow 0x92 ++ codes " client).")
    ++ help (codes "openconnect_session_dtls") (codes "gauge")
        (codes "1 if the session is on the DTLS (UDP) fast path.")

-- No session is counted if they could not be read.
abbrev or_empty : Result (List Session) → List Session
or_empty (ok xs) = xs
or_empty (err e) = []

module _ (format_g : ℤ → Text) where
  unfoldable pub metric : Text → Text → ℤ → Text
  metric name lbl v = name ++ lbl ++ codes " " ++ format_g v ++ codes "\n"

  unfoldable pub instance_lines : List Session → Instance → Text
  instance_lines sessions in' =
      let lbl = labels ((codes "instance", in'.name) ∷ []) in
      metric (codes "openconnect_instance_up") lbl (bit in'.up)
      ++ metric (codes "openconnect_instance_sessions") lbl (pos (session_count in'.name sessions))
      ++ metric (codes "openconnect_instance_clients") lbl in'.client_count

  unfoldable pub session_lines : Session → Text
  session_lines s =
      let lbl =
        labels ((codes "instance", s.instance_name) ∷ (codes "common_name", s.common_name) ∷ []) in
      metric (codes "openconnect_user_rx_bytes_total") lbl (pos s.rx_bytes)
      ++ metric (codes "openconnect_user_tx_bytes_total") lbl (pos s.tx_bytes)
      ++ metric (codes "openconnect_session_dtls") lbl (bit s.dtls)

  unfoldable pub exposition : List Instance → List Session → Text
  exposition instances sessions =
      helps
      ++ concat (map (instance_lines sessions) (by_name instances))
      ++ concat (map session_lines (by_user sessions))

  -- Render: the instances are read before the sessions.
  unfoldable pub render : {S : Type 0} → Source S → S → Text × S
  render source s =
      let (r, s') = source.sessions [] s in (exposition (source.list_instances s) (or_empty r), s')
