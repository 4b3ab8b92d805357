-- ===== src/Render/Lines.antt =====
-- The file that `Render` writes, read line by line.
use openconnectd.Base.{
  ◌≡◌, refl, List, [], ◌∷◌, ◌++◌, map, Text, codes, arith, all-append, inl, inr,
}
use openconnectd.Base.Int.{pos}
use openconnectd.Errors.{ok, Result-cases, Returns, Returns-bind, Returns-ok}
use openconnectd.Render.{
  InstanceConfig, render, render_lines, validate, auth_lines, auth_kind_lines, cert_lines,
  header_lines, listener_lines, socket_lines, camouflage_lines, network_lines, network_body,
  route_lines, limit_lines, full_tunnel, or_default,
}
use openconnectd.Render.Routes.{dedup_sorted}
use openconnectd.Render.Routes.Laws.{all-dedup_sorted}
use openconnectd.Render.Network.{split_cidr}
use openconnectd.Render.Emitted.{
  IsLine, is_line, AreLines, lines_of, lines_of-emit, is_line-append, int-IsLine, split_cidr-IsLine,
  map-AreLines,
}

-- No text of the config holds a newline; nothing that `%q` prints does.
pub record IsPlain (quote : Text → Text) (c : InstanceConfig) : Type 0 where
  pub name : IsLine (quote c.name)
  pub local_bind : IsLine c.local_bind
  pub pool_cidr_v6 : IsLine c.pool_cidr_v6
  pub dns : AreLines c.dns
  pub routes : AreLines c.routes
  pub secret : IsLine c.camouflage.secret
  pub realm : IsLine c.camouflage.realm
  pub server_cert : IsLine c.server_cert
  pub server_key : IsLine c.server_key
  pub ca_cert : IsLine c.ca_cert
  pub crl_file : IsLine c.crl_file
  pub ocpasswd_file : IsLine c.ocpasswd_file
  pub occtl_socket : IsLine c.occtl_socket
  pub run_socket : IsLine c.run_socket
  pub device : IsLine c.device
  pub config_per_user_dir : IsLine c.config_per_user_dir
  pub default_domain : IsLine c.default_domain

module _ (quote : Text → Text) (c : InstanceConfig) (h : IsPlain quote c) where
  header-AreLines : AreLines (header_lines quote c)
  unfolding header_lines
  header-AreLines = ground (arith, is_line-append (quote c.name) (codes ". Do not edit by hand."))

  kind-AreLines : AreLines (auth_kind_lines c)
  unfolding auth_kind_lines
  kind-AreLines = ground (arith, is_line-append c.ocpasswd_file (codes "]\""))

  cert-AreLines : AreLines (cert_lines c)
  unfolding cert_lines
  cert-AreLines = ground arith

  auth-AreLines : (ls : List Text) → auth_lines c ≡ ok ls → AreLines ls
  unfolding auth_lines
  auth-AreLines ls e = ground (
    arith,
    kind-AreLines,
    cert-AreLines,
    all-append is_line (auth_kind_lines c) (cert_lines c),
    all-append is_line (auth_kind_lines c ++ cert_lines c) ([] ∷ []),
    all-append is_line (auth_kind_lines c) ([] ∷ []),
  )

  listener-AreLines : AreLines (listener_lines c)
  unfolding listener_lines
  listener-AreLines = ground (arith, int-IsLine c.tcp_port, int-IsLine c.udp_port)

  socket-AreLines : AreLines (socket_lines c)
  unfolding socket_lines
  socket-AreLines = ground arith

  camouflage-AreLines : (ls : List Text) → camouflage_lines c.camouflage ≡ ok ls → AreLines ls
  unfolding camouflage_lines
  camouflage-AreLines ls e = ground (
    arith,
    is_line-append c.camouflage.secret (codes "\""),
    is_line-append c.camouflage.realm (codes "\""),
  )

  dns-AreLines : AreLines (map (λ d. codes "dns = " ++ d) c.dns)
  dns-AreLines = map-AreLines (codes "dns = ") c.dns refl h.dns

  route-AreLines : AreLines (route_lines c)
  unfolding route_lines full_tunnel
  route-AreLines = ground (
    arith,
    all-dedup_sorted is_line c.routes h.routes,
    map-AreLines (codes "route = ") (dedup_sorted c.routes),
  )

  network_body-AreLines :
      (network netmask : Text)
      → IsLine network × IsLine netmask
      → AreLines (network_body c network netmask)
  unfolding network_body
  network_body-AreLines network netmask ok' =
      simp (all-append, dns-AreLines, route-AreLines) (ground arith)

  network-AreLines : (ls : List Text) → network_lines c ≡ ok ls → AreLines ls
  unfolding network_lines
  network-AreLines ls e = elim (Result-cases (split_cidr c.pool_cidr)) [
    | inl ((network, netmask), split) ↦ ground (
      arith,
      network_body-AreLines network netmask,
      split_cidr-IsLine c.pool_cidr network netmask split,
    )
    | inr (bad, refused) ↦ ground arith
  ]

  limit-AreLines : AreLines (limit_lines c)
  unfolding limit_lines
  limit-AreLines = ground (
    arith,
    int-IsLine (or_default c.max_clients (pos 1024)),
    int-IsLine (or_default c.max_same_clients (pos 2)),
  )

-- The lines that are rendered hold no newline.
render_lines-AreLines :
    (quote : Text → Text) (c : InstanceConfig)
    → IsPlain quote c
    → Returns AreLines (render_lines quote c)
unfolding render_lines
render_lines-AreLines quote c h = Returns-bind AreLines (validate c) _ λ _ _.
    Returns-bind AreLines (auth_lines c) _ λ auth ea.
      Returns-bind AreLines (camouflage_lines c.camouflage) _ λ cam ec.
        Returns-bind AreLines (network_lines c) _ λ net en. simp (
          all-append,
          header-AreLines quote c h,
          auth-AreLines quote c h auth ea,
          listener-AreLines quote c h,
          socket-AreLines quote c h,
          camouflage-AreLines quote c h cam ec,
          network-AreLines quote c h net en,
          limit-AreLines quote c h,
        )

-- If no text of the config holds a newline, the file that is rendered has exactly the lines that
-- were put into it: no value adds a line or runs into the next.
pub lines_of-render :
    (quote : Text → Text) (c : InstanceConfig) (t : Text)
    → IsPlain quote c
    → render quote c ≡ ok t
    → render_lines quote c ≡ ok (lines_of t)
unfolding render
lines_of-render quote c t h e = elim (Result-cases (render_lines quote c)) [
  | inl (ls, good) ↦ ground (
    arith,
    lines_of-emit ls,
    Returns-ok AreLines (render_lines quote c) ls (render_lines-AreLines quote c h) good,
  )
  | inr (bad, refused) ↦ ground arith
]
