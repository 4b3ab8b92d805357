-- ===== src/PerUser/Pins.antt =====
-- What the pins of internal/ocserv/manager.go leave on disk.
use openconnectd.Host.Frame.{spares_rules}
use openconnectd.Base.{
  ℕ, ◌≡◌, ◌≢◌, refl, ◌∙◌, ap, sym, true, false, List, [], ◌∷◌, ◌++◌, Option, none, some, Text,
  codes, arith, Bool-cases, inl, inr, ◌⊎◌,
}
use openconnectd.Strings.{is_blank, trim_space}
use openconnectd.Net.Ipv4.{format_ipv4}
use openconnectd.Net.Cidr.{parse_ip_to4}
use openconnectd.Errors.{Error, Result, ok, err, is_not_exist}
use openconnectd.Exec.{Exec, continue, continue-eq-ok}
use openconnectd.Host.{Env, Host, call, write_file, remove}
use openconnectd.Host.Laws.{file, write_file_self, remove-other, remove-gone}
use openconnectd.Host.Frame.{Spares, Spares-lift}
use openconnectd.Render.Emitted.{lines_of, lines_of-emit, ipv4-IsLine}
use openconnectd.Render.{emit, render_per_user_config}
use openconnectd.DaemonConfig.{Config}
use openconnectd.PerUser.{
  per_user_dir, per_user_path, unless_missing, remove_if_there, write_pin, pin_or_clear,
  write_per_user_config,
}

module _ (env : Env) (dir path other : Text) (ne : path ≢ other) where
  Spares-remove_if_there : Spares other (remove_if_there env path)
  unfolding remove_if_there
  Spares-remove_if_there = record { at = λ h. remove-other env h path other ne }

  Spares-write_pin :
      (static_ip : Text) (ip : Option (List ℕ)) → Spares other (write_pin env dir path static_ip ip)
  unfolding write_pin
  Spares-write_pin static_ip none = search spares_rules
  Spares-write_pin static_ip (some ip) = search spares_rules

  Spares-pin_or_clear : (static_ip : Text) → Spares other (pin_or_clear env dir path static_ip)
  unfolding pin_or_clear
  Spares-pin_or_clear static_ip = search (spares_rules, Spares-remove_if_there, Spares-write_pin)

-- Writing a pin touches no file but the client's own: not the pin of another client, and no file
-- outside; with a common name that is refused it touches none.
pub Spares-write_per_user_config :
    (env : Env) (cfg : Config) (instance' cn static_ip other : Text)
    → per_user_path cfg instance' cn ≢ ok other
    → Spares other (write_per_user_config env cfg instance' cn static_ip)
unfolding write_per_user_config
Spares-write_per_user_config env cfg instance' cn static_ip other ne = record {
  at =
      (Spares-lift (per_user_path cfg instance' cn) _ (λ path e.
        Spares-pin_or_clear env (per_user_dir cfg instance') path other (λ eq. ne (e ∙ ap ok eq))
          static_ip)).at;
}

-- What a pin that was written without an error leaves: no file for a blank address, and else the
-- IPv4 address that the text stands for.
abbrev pub Pinned : Text → Option Text → Type 0
Pinned static_ip content =
    ((is_blank static_ip ≡ true) × (content ≡ none))
    ⊎ ((ip : List ℕ) × (is_blank static_ip ≡ false)
        × (parse_ip_to4 (trim_space static_ip) ≡ some ip)
        × (content ≡ some (render_per_user_config (format_ipv4 ip))))

module _ (env : Env) (dir path static_ip : Text) where
  remove_if_there-gone :
      (h : Host)
      → (remove_if_there env path h).0 ≡ ok tt
      → file path (remove_if_there env path h).1 ≡ none
  unfolding remove_if_there
  remove_if_there-gone h good = elim (remove-gone env h path) [
    | inl gone ↦ gone
    | inr (e, failed', other) ↦ absurd (refused (remove env path h).0 e failed' other good)
  ]
    where
      refused :
          (r : Result (Unit {0})) (e : Error)
          → r ≡ err e
          → is_not_exist e ≡ false
          → unless_missing r ≢ ok tt
      refused r e eq other good' = ground arith

  write_pin-Pinned :
      (ip : Option (List ℕ)) (h : Host)
      → is_blank static_ip ≡ false
      → parse_ip_to4 (trim_space static_ip) ≡ ip
      → (write_pin env dir path static_ip ip h).0 ≡ ok tt
      → Pinned static_ip (file path (write_pin env dir path static_ip ip h).1)
  unfolding write_pin
  write_pin-Pinned none h given e good = ground arith
  write_pin-Pinned (some ip) h given e good =
      inr (ip, given, e, after (call env h).0 (call env h).1 good)
    where
      after :
          (r : Result (Unit {0})) (h' : Host)
          → (continue r (λ _. write_file env path (render_per_user_config (format_ipv4 ip))) h').0
            ≡ ok tt
          → file path
              (continue r (λ _. write_file env path (render_per_user_config (format_ipv4 ip))) h').1
            ≡ some (render_per_user_config (format_ipv4 ip))
      after (ok u) h' good' =
          write_file_self env h' path (render_per_user_config (format_ipv4 ip)) good'
      after (err x) h' good' = ground arith

  abbrev Leaves : Exec Host (Unit {0}) → Host → Type 0
  Leaves m h = (m h).0 ≡ ok tt → Pinned static_ip (file path (m h).1)

  pin_or_clear-blank :
      is_blank static_ip ≡ true → pin_or_clear env dir path static_ip ≡ remove_if_there env path
  unfolding pin_or_clear
  pin_or_clear-blank blank = rw blank

  pin_or_clear-given :
      is_blank static_ip ≡ false
      → pin_or_clear env dir path static_ip
        ≡ write_pin env dir path static_ip (parse_ip_to4 (trim_space static_ip))
  unfolding pin_or_clear
  pin_or_clear-given given = rw given

  pin_or_clear-Pinned : (h : Host) → Leaves (pin_or_clear env dir path static_ip) h
  pin_or_clear-Pinned h = elim (Bool-cases (is_blank static_ip)) [
    | inl blank ↦ rw (pin_or_clear-blank blank) (λ good. inl (blank, remove_if_there-gone h good))
    | inr given ↦
        rw (pin_or_clear-given given)
          (write_pin-Pinned (parse_ip_to4 (trim_space static_ip)) h given refl)
  ]

-- A pin that is written without an error leaves the client's file as the address says, in every
-- environment: gone for a blank address, and else the address as an IPv4 literal in a file of two
-- lines, whatever text the address was given as.
pub write_per_user_config_lem :
    (env : Env) (cfg : Config) (instance' cn static_ip : Text) (h : Host)
    → (write_per_user_config env cfg instance' cn static_ip h).0 ≡ ok tt
    → (path : Text) × (per_user_path cfg instance' cn ≡ ok path)
      × Pinned static_ip (file path (write_per_user_config env cfg instance' cn static_ip h).1)
unfolding write_per_user_config
write_per_user_config_lem env cfg instance' cn static_ip h good =
    let dir = per_user_dir cfg instance' in
    let (path, e, eq) =
      continue-eq-ok (per_user_path cfg instance' cn) (λ p. pin_or_clear env dir p static_ip) h
        good in
    (path, e, rw eq (pin_or_clear-Pinned env dir path static_ip h (ap (λ o. o.0) (sym eq) ∙ good)))

-- The file of a pin has two lines, whatever the address: no directive can be added to it.
lines_of-render_per_user_config :
    (ip : List ℕ)
    → lines_of (render_per_user_config (format_ipv4 ip))
      ≡ codes "# Generated by openconnectd. Do not edit by hand."
        ∷ (codes "explicit-ipv4 = " ++ format_ipv4 ip)
        ∷ []
unfolding render_per_user_config
lines_of-render_per_user_config ip =
    unfold emit in
    lines_of-emit
      (codes "# Generated by openconnectd. Do not edit by hand."
        ∷ (codes "explicit-ipv4 = " ++ format_ipv4 ip)
        ∷ [])
      (ground (arith, ipv4-IsLine ip))
