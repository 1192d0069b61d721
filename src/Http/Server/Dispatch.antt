-- ===== src/Http/Server/Dispatch.antt =====
-- streamserver-cvn-cli/http/httpserver.cpp: the requests that reach a handler.
use streamserver_cvn.Prelude.{
  ℕ, ◌≡◌, ◌↔◌, ◌⊎◌, refl, ◌∙◌, inl, inr, true, ◌||◌, List, [], ◌∷◌, Option, none, some, arith,
  Bytes, Bool-cases, Option-cases,
}
use streamserver_cvn.Http.Text.{ascii, same}
use streamserver_cvn.Http.Header.{Field, fields_named}
use streamserver_cvn.Http.Request.{Request}
use streamserver_cvn.Http.Server.Ports.{HasPort, same_port, with_port-HasPort}
use streamserver_cvn.Http.Server.{
  Server, refuse, call, no_handler, with_port, is_listed, is_allowed, judge_method, judge_host,
  judge_hosts, is_supported_version, is_supported_method, process_request,
}

pub same_eq : (a b : Bytes) → same a b ≡ true → a ≡ b
unfolding same
same_eq [] [] e = refl
same_eq [] (y ∷ b) e = cc
same_eq (x ∷ a) [] e = cc
same_eq (x ∷ a) (y ∷ b) e = ground (arith, same_eq a b)

pub same_refl : (a : Bytes) → same a a ≡ true
unfolding same
same_refl [] = refl
same_refl (x ∷ a) = ground (arith, same_refl a)

-- One of two texts.
abbrev pub IsEither : Bytes → Bytes → Bytes → Type 0
IsEither a b x = (x ≡ a) ⊎ (x ≡ b)

either_true : (a b x : Bytes) → IsEither a b x → (same x a || same x b) ≡ true
either_true a b x (inl e) = let yes = same_refl a in rw e (rw yes)
either_true a b x (inr e) =
    let yes = same_refl b in
    rw e (elim (Bool-cases (same b a)) [ inl q ↦ rw q | inr q ↦ rw (q, yes) ])

true_either : (a b x : Bytes) → (same x a || same x b) ≡ true → IsEither a b x
true_either a b x e = elim (Bool-cases (same x a)) [
  | inl q ↦ inl (same_eq x a q)
  | inr q ↦ inr (same_eq x b (rw q at e))
]

module _ (lower_host lower : Bytes → Bytes) where
  -- The host is an entry of the list, each in lower case and with its port.
  abbrev pub IsListed : Bytes → List Bytes → Type 0
  IsListed host [] = ⊥
  IsListed host (w ∷ ws) =
      ((full : Bytes) × HasPort (lower_host host) full × HasPort (lower w) full) ⊎ IsListed host ws

  listed_true :
      (host : Bytes) (ws : List Bytes)
      → IsListed host ws
      → is_listed lower_host lower host ws ≡ true
  unfolding is_listed
  listed_true host [] h = absurd h
  listed_true host (w ∷ ws) (inl (full, h, k)) =
      rw (same_port (lower_host host) full h, same_port (lower w) full k, same_refl full) refl
  listed_true host (w ∷ ws) (inr h) =
      elim (Bool-cases (same (with_port (lower_host host)) (with_port (lower w)))) [
        | inl q ↦ rw q
        | inr q ↦ rw q (listed_true host ws h)
      ]

  finds_entry :
      (host : Bytes) (ws : List Bytes)
      → is_listed lower_host lower host ws ≡ true
      → IsListed host ws
  unfolding is_listed
  finds_entry host [] e = cc
  finds_entry host (w ∷ ws) e =
      elim (Bool-cases (same (with_port (lower_host host)) (with_port (lower w)))) [
        | inl q ↦
            let both = same_eq (with_port (lower_host host)) (with_port (lower w)) q in
            inl (
              with_port (lower w),
              rw both at (with_port-HasPort (lower_host host)),
              with_port-HasPort (lower w),
            )
        | inr q ↦ inr (finds_entry host ws (rw q at e))
      ]

  abbrev pub IsAllowed : Bytes → List Bytes → Type 0
  IsAllowed host ws = (ws ≡ []) ⊎ IsListed host ws

  allowed_true :
      (host : Bytes) (ws : List Bytes)
      → IsAllowed host ws
      → is_allowed lower_host lower host ws ≡ true
  allowed_true host ws (inl e) = rw e
  allowed_true host [] (inr h) = refl
  allowed_true host (w ∷ ws) (inr h) = listed_true host (w ∷ ws) h

  lets_in :
      (host : Bytes) (ws : List Bytes)
      → is_allowed lower_host lower host ws ≡ true
      → IsAllowed host ws
  lets_in host [] e = inl refl
  lets_in host (w ∷ ws) e = inr (finds_entry host (w ∷ ws) e)

  -- The handler of the request, or else that of the server.
  abbrev pub IsChosen : Server → Option ℕ → ℕ → Type 0
  IsChosen server handler h =
      (handler ≡ some h) ⊎ ((handler ≡ none) × (server.default_handler ≡ some h))

  -- The host that a request names: at most one header does.
  abbrev pub NamesHost : List Field → Bytes → Type 0
  NamesHost fields host =
      ((fields ≡ []) × (host ≡ [])) ⊎ ((f : Field) × (fields ≡ f ∷ []) × (f.field_value ≡ host))

  -- What a request has to have for a handler to be called.
  pub record Serves (server : Server) (handler : Option ℕ) (r : Request) (h : ℕ) : Type 0 where
    pub version : IsEither (ascii "HTTP/1.0") (ascii "HTTP/1.1") r.http_version
    pub host : Bytes
    pub named : NamesHost (fields_named (ascii "Host") r.header) host
    pub allowed : IsAllowed host server.server_host_whitelist
    pub method : IsEither (ascii "GET") (ascii "HEAD") r.method
    pub chosen : IsChosen server handler h

  method_call :
      (server : Server) (handler : Option ℕ) (method : Bytes) (h : ℕ)
      → IsEither (ascii "GET") (ascii "HEAD") method
      → IsChosen server handler h
      → judge_method lower_host lower server handler method ≡ call h
  unfolding judge_method
  method_call server handler method h m c =
      let yes : is_supported_method method ≡ true =
        either_true (ascii "GET") (ascii "HEAD") method m in
      rw yes (chosen c)
    where
      chosen :
          IsChosen server handler h
          → (elim handler [
            | some h ↦ call h
            | none ↦ elim server.default_handler [ none ↦ refuse no_handler | some h ↦ call h ]
          ])
            ≡ call h
      chosen (inl e) = rw e
      chosen (inr (e, d)) = rw (e, d)

  call_method :
      (server : Server) (handler : Option ℕ) (method : Bytes) (h : ℕ)
      → judge_method lower_host lower server handler method ≡ call h
      → IsEither (ascii "GET") (ascii "HEAD") method × IsChosen server handler h
  unfolding judge_method
  call_method server handler method h e = elim (Bool-cases (is_supported_method method)) [
    | inr q ↦ absurd (let z = rw (q, judge_method) at e in cc)
    | inl q ↦ (
      true_either (ascii "GET") (ascii "HEAD") method q,
      elim (Option-cases handler) [
        | inr (g, o) ↦
            inl (let z = rw (q, judge_method) at e in let y = rw o at z in o ∙ call_some y)
        | inl o ↦ elim (Option-cases server.default_handler) [
          | inr (g, d) ↦
              inr (
                o,
                (let z = rw (q, judge_method) at e in let y = rw (o, d) at z in d ∙ call_some y),
              )
          | inl d ↦ absurd (let z = rw (q, judge_method) at e in let y = rw (o, d) at z in cc)
        ]
      ],
    )
  ]
    where
      call_some : {g : ℕ} → call g ≡ call h → some g ≡ some h
      call_some e = cc

  host_call :
      (server : Server) (handler : Option ℕ) (host method : Bytes) (h : ℕ)
      → IsAllowed host server.server_host_whitelist
      → judge_method lower_host lower server handler method ≡ call h
      → judge_host lower_host lower server handler host method ≡ call h
  unfolding judge_host
  host_call server handler host method h a e =
      let yes = allowed_true host server.server_host_whitelist a in rw yes e

  call_host :
      (server : Server) (handler : Option ℕ) (host method : Bytes) (h : ℕ)
      → judge_host lower_host lower server handler host method ≡ call h
      → IsAllowed host server.server_host_whitelist
        × (judge_method lower_host lower server handler method ≡ call h)
  unfolding judge_host
  call_host server handler host method h e =
      elim (Bool-cases (is_allowed lower_host lower host server.server_host_whitelist)) [
        | inl q ↦ (lets_in host server.server_host_whitelist q, rw (q, judge_host) at e)
        | inr q ↦ absurd (let z = rw (q, judge_host) at e in cc)
      ]

  call_hosts :
      (server : Server) (handler : Option ℕ) (fields : List Field) (method : Bytes) (h : ℕ)
      → judge_hosts lower_host lower server handler fields method ≡ call h
      → (host : Bytes) × NamesHost fields host
        × (judge_host lower_host lower server handler host method ≡ call h)
  unfolding judge_hosts
  call_hosts server handler [] method h e = ([], inl (refl, refl), e)
  call_hosts server handler (f ∷ []) method h e = (f.field_value, inr (f, refl, refl), e)
  call_hosts server handler (f ∷ g ∷ fs) method h e = cc

  hosts_call :
      (server : Server) (handler : Option ℕ) (fields : List Field) (host method : Bytes) (h : ℕ)
      → NamesHost fields host
      → judge_host lower_host lower server handler host method ≡ call h
      → judge_hosts lower_host lower server handler fields method ≡ call h
  unfolding judge_hosts
  hosts_call server handler fields host method h (inl (e, n)) j = rw (e, judge_hosts) (rw n at j)
  hosts_call server handler fields host method h (inr (f, e, n)) j =
      rw (e, judge_hosts) (rw (← n) at j)

  -- A handler is called exactly for the requests with a version and a method that are supported, with
  -- at most one Host header, and a host that is on the white-list, in lower case and each with port
  -- 80 where it names none, unless the list is empty; and it is the handler of the context, or the default handler
  -- where the context has none.
  pub process_request-Serves :
      (server : Server) (handler : Option ℕ) (r : Request) (h : ℕ)
      → (process_request lower_host lower server handler r ≡ call h) ↔ Serves server handler r h
  unfolding process_request
  process_request-Serves server handler r h = (serves, called)
    where
      serves :
          process_request lower_host lower server handler r ≡ call h → Serves server handler r h
      serves e = elim (Bool-cases (is_supported_version r.http_version)) [
        | inr q ↦ absurd (let z = rw (q, process_request) at e in cc)
        | inl q ↦
            let z = rw (q, process_request) at e in
            let (host, named, j) =
              call_hosts server handler (fields_named (ascii "Host") r.header) r.method h z in
            let (allowed, k) = call_host server handler host r.method h j in
            let (method, chosen) = call_method server handler r.method h k in
            record {
              version = true_either (ascii "HTTP/1.0") (ascii "HTTP/1.1") r.http_version q;
              host = host;
              named = named;
              allowed = allowed;
              method = method;
              chosen = chosen;
            }
      ]

      called :
          Serves server handler r h → process_request lower_host lower server handler r ≡ call h
      called s =
          let yes : is_supported_version r.http_version ≡ true =
            either_true (ascii "HTTP/1.0") (ascii "HTTP/1.1") r.http_version s.version in
          rw yes (
            hosts_call server handler (fields_named (ascii "Host") r.header) s.host r.method h
              s.named
              (host_call server handler s.host r.method h s.allowed
                (method_call server handler r.method h s.method s.chosen)))
